-- ===== src/Verifier.antt =====
-- engine/src/api/services/mutation_verifier.py: the checks that follow a controlled mutation.
pub mod Plan
pub mod Match
pub mod Health
pub mod Kubernetes
pub mod Helm
pub mod Loop
pub mod Cancelled
pub mod Adapters
pub mod Recovery
mod Tests
