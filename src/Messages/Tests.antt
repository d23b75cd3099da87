-- ===== src/Messages/Tests.antt =====
-- Conversations at concrete messages.
use cloudops_agent.Prelude.{String, ◌≤◌, ◌≡◌, refl, true, List, [], ◌∷◌, length, arith}
use cloudops_agent.Json.{str, arr, obj, nil, cons, Fields, done, field}
use cloudops_agent.Json.Access.{lookup}
use cloudops_agent.Messages.Window.{window_messages, last_of, first_user, drop_leading_orphan_tools}
use cloudops_agent.Messages.Window.Bounds.{window_messages-bound}
use cloudops_agent.Messages.Pairs.{sanitize_messages_for_openai}
use cloudops_agent.Messages.Pairs.Answered.{all_answered, sanitize_messages_for_openai-answered}

abbrev say : String → String → Fields
say role content = field "role" (str role) (field "content" (str content) done)

abbrev asking : Fields
asking = field "role" (str "assistant") (
    field "content" (str "")
      (field "tool_calls" (arr (cons (obj (field "id" (str "t1") done)) nil)) done))

abbrev answering : Fields
answering =
    field "role" (str "tool") (field "content" (str "pods") (field "tool_call_id" (str "t1") done))

abbrev conversation : List Fields
conversation =
    say "user" "one" ∷ asking ∷ answering ∷ say "assistant" "two" ∷ say "user" "three" ∷ []

window_messages-bound_example : length (window_messages 4 conversation) ≤ 4
window_messages-bound_example = window_messages-bound 4 conversation (omega arith)

-- The window of four drops the user's last message.
drops_latest : window_messages 4 conversation ≡ say "user" "one" ∷ say "assistant" "two" ∷ []
unfolding window_messages last_of first_user drop_leading_orphan_tools lookup
drops_latest = refl

sanitize_messages_for_openai-answered_example :
    all_answered [] (sanitize_messages_for_openai (answering ∷ conversation)) ≡ true
sanitize_messages_for_openai-answered_example =
    sanitize_messages_for_openai-answered (answering ∷ conversation)
