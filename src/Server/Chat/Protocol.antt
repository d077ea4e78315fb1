-- ===== src/Server/Chat/Protocol.antt =====
-- That each request to the language model (server/chat.go, internal/llm/client.go) answers the tool
-- calls before it.
use mathlib.Core.Path.{subst}
use mcp_server_dynamodb_sage.Prelude.{
  ℕ, zero, suc, ◌≤◌, String, ◌≡◌, refl, sym, ap, ◌∙◌, ◌⊎◌, inl, inr, Bool, true, false, Option,
  none, some, List, [], ◌∷◌, ◌++◌, All, length, length-append, arith, str_eq, is_blank,
  if◌then◌else◌,
}
use mcp_server_dynamodb_sage.Server.Tools.{Tool}
use mcp_server_dynamodb_sage.Server.Chat.{
  ToolCall, ToolResult, LlmMessage, ChatMessage, plain, in_order, build_chat_history, Chat,
  execute_tool_by_name, result_of, fetch_tool_results, round, generate_from, generate_chat, Block,
  tool_use, tool_result, text_block, Param, assistant_message, user_message, use_blocks,
  result_blocks, text_param, param_of, add_param, construct_messages,
}

abbrev ids : List ToolCall → List String
ids [] = []
ids (c ∷ cs) = c.id ∷ ids cs

abbrev result_ids : List ToolResult → List String
result_ids [] = []
result_ids (r ∷ rs) = r.tool_call_id ∷ result_ids rs

abbrev pub uses_in : List Block → List String
uses_in [] = []
uses_in (tool_use id _ _ ∷ bs) = id ∷ uses_in bs
uses_in (tool_result _ _ _ ∷ bs) = uses_in bs
uses_in (text_block _ ∷ bs) = uses_in bs

abbrev pub results_in : List Block → List String
results_in [] = []
results_in (tool_use _ _ _ ∷ bs) = results_in bs
results_in (tool_result id _ _ ∷ bs) = id ∷ results_in bs
results_in (text_block _ ∷ bs) = results_in bs

abbrev pub blocks : Param → List Block
blocks (assistant_message bs) = bs
blocks (user_message bs) = bs

-- Each message has results for exactly the tools that the message before it uses, in order; `pending`
-- are the uses before the first, and after the last none are left.
abbrev pub IsAnswered : (pending : List String) → List Param → Type 0
IsAnswered pending [] = pending ≡ []
IsAnswered pending (p ∷ ps) = (results_in (blocks p) ≡ pending) × IsAnswered (uses_in (blocks p)) ps

uses_in-use_blocks : (cs : List ToolCall) → uses_in (use_blocks cs ++ []) ≡ ids cs
uses_in-use_blocks [] = refl
uses_in-use_blocks (c ∷ cs) = ap (λ r. c.id ∷ r) (uses_in-use_blocks cs)

results_in-use_blocks : (cs : List ToolCall) → results_in (use_blocks cs ++ []) ≡ []
results_in-use_blocks [] = refl
results_in-use_blocks (c ∷ cs) = results_in-use_blocks cs

uses_in-result_blocks : (rs : List ToolResult) → uses_in (result_blocks rs) ≡ []
uses_in-result_blocks [] = refl
uses_in-result_blocks (r ∷ rs) = uses_in-result_blocks rs

results_in-result_blocks : (rs : List ToolResult) → results_in (result_blocks rs) ≡ result_ids rs
results_in-result_blocks [] = refl
results_in-result_blocks (r ∷ rs) = ap (λ l. r.tool_call_id ∷ l) (results_in-result_blocks rs)

add_param-IsAnswered :
    (o : Option Param) (pending : List String) (ps qs : List Param)
    → IsAnswered pending (add_param o ps)
    → ((p : List String) → IsAnswered p ps → IsAnswered p qs)
    → IsAnswered pending (add_param o qs)
add_param-IsAnswered none pending ps qs h next = next pending h
add_param-IsAnswered (some p) pending ps qs h next = (h.0, next (uses_in (blocks p)) h.1)

append-IsAnswered :
    (pending : List String) (ms ns : List LlmMessage)
    → IsAnswered pending (construct_messages ms)
    → IsAnswered [] (construct_messages ns)
    → IsAnswered pending (construct_messages (ms ++ ns))
unfolding construct_messages
append-IsAnswered pending [] ns h new =
    subst (λ p. IsAnswered p (construct_messages ns)) (sym h) new
append-IsAnswered pending (m ∷ ms) ns h new =
    add_param-IsAnswered (param_of m) pending (construct_messages ms)
      (construct_messages (ms ++ ns)) h (λ p all. append-IsAnswered p ms ns all new)

round-IsAnswered :
    (c : ToolCall) (cs : List ToolCall) (r : ToolResult) (rs : List ToolResult)
    → result_ids (r ∷ rs) ≡ ids (c ∷ cs)
    → IsAnswered [] (
        construct_messages (
          record { role = "assistant"; content = ""; tool_calls = c ∷ cs; tool_results = [] }
          ∷ record { role = "user"; content = ""; tool_calls = []; tool_results = r ∷ rs }
          ∷ []))
unfolding construct_messages str_eq is_blank
round-IsAnswered c cs r rs same = (
  results_in-use_blocks (c ∷ cs),
  (
    results_in-result_blocks (r ∷ rs) ∙ same ∙ sym (uses_in-use_blocks (c ∷ cs)),
    uses_in-result_blocks (r ∷ rs),
  ),
)

param_of-plain :
    (role content : String) → param_of (plain role content) ≡ text_param (plain role content)
unfolding param_of
param_of-plain role content = ground arith

text-IsAnswered :
    (blank assistant : Bool) (content : String)
    → IsAnswered [] (
        add_param
          (if blank
            then none
            else some (
                if assistant
                then assistant_message (text_block content ∷ [])
                else user_message (text_block content ∷ [])))
          [])
text-IsAnswered true assistant content = refl
text-IsAnswered false true content = (refl, refl)
text-IsAnswered false false content = (refl, refl)

plain-IsAnswered :
    (role content : String) → IsAnswered [] (construct_messages (plain role content ∷ []))
unfolding construct_messages
plain-IsAnswered role content =
    subst (λ o. IsAnswered [] (add_param o [])) (sym (param_of-plain role content))
      (text-IsAnswered (is_blank content) (str_eq role "assistant") content)

in_order-IsAnswered : (ms : List ChatMessage) → IsAnswered [] (construct_messages (in_order ms))
unfolding in_order construct_messages
in_order-IsAnswered [] = refl
in_order-IsAnswered (m ∷ ms) =
    append-IsAnswered [] (in_order ms) (plain m.user m.content ∷ []) (in_order-IsAnswered ms)
      (plain-IsAnswered m.user m.content)

build_chat_history-IsAnswered :
    (msg : String) (history : List ChatMessage ⊎ String)
    → IsAnswered [] (construct_messages (build_chat_history msg history))
unfolding build_chat_history
build_chat_history-IsAnswered msg (inr e) = plain-IsAnswered "user" msg
build_chat_history-IsAnswered msg (inl []) = plain-IsAnswered "user" msg
build_chat_history-IsAnswered msg (inl (m ∷ ms)) = in_order-IsAnswered (m ∷ ms)

-- Every request is answered, and there are no more of them than rounds.
abbrev pub AreAnswered : ℕ → List (List LlmMessage) → Type 0
AreAnswered rounds requests =
    All (λ ms. IsAnswered [] (construct_messages ms)) requests × (length requests ≤ rounds)

snoc-All :
    (P : List LlmMessage → Type 0) (xs : List (List LlmMessage)) (x : List LlmMessage)
    → All P xs
    → P x
    → All P (xs ++ (x ∷ []))
snoc-All P [] x all last = (last, tt)
snoc-All P (y ∷ ys) x all last = (all.0, snoc-All P ys x all.1 last)

module _ {W : Type 0} (run : W → Tool × Bool → Option String → W × (String ⊎ String))
    (generate : W → List LlmMessage → List ToolCall ⊎ String) where
  result_of-id :
      (c : ToolCall) (x : String ⊎ String) → (result_of run generate c x).tool_call_id ≡ c.id
  result_of-id c (inl output) = refl
  result_of-id c (inr e) = refl

  fetch_tool_results-ids :
      (w : W) (cs : List ToolCall) → result_ids (fetch_tool_results run generate w cs).1 ≡ ids cs
  unfolding fetch_tool_results
  fetch_tool_results-ids w [] = refl
  fetch_tool_results-ids w (c ∷ cs) =
      let ran = execute_tool_by_name run generate w c in
      let rest = fetch_tool_results run generate ran.0 cs in
      ap (λ id. id ∷ result_ids rest.1) (result_of-id c ran.1)
      ∙ ap (λ l. c.id ∷ l) (fetch_tool_results-ids ran.0 cs)

  one_round-AreAnswered :
      (rounds : ℕ) (w : W) (ms : List LlmMessage) (answer : List ToolCall ⊎ String)
      (later : W → List LlmMessage → Chat W)
      → IsAnswered [] (construct_messages ms)
      → ((w' : W) (ns : List LlmMessage)
          → IsAnswered [] (construct_messages ns)
          → AreAnswered rounds (later w' ns).requests)
      → AreAnswered (suc rounds) (round run generate w ms answer later).requests
  unfolding fetch_tool_results
  one_round-AreAnswered rounds w ms (inr e) later h next = ((h, tt), omega arith)
  one_round-AreAnswered rounds w ms (inl []) later h next = ((h, tt), omega arith)
  one_round-AreAnswered rounds w ms (inl (c ∷ cs)) later h next =
      let fetched = fetch_tool_results run generate w (c ∷ cs) in
      let (all, few) = next fetched.0 _ (
        append-IsAnswered [] ms _ h
          (round-IsAnswered c cs _ _ (fetch_tool_results-ids w (c ∷ cs)))) in
      (snoc-All _ _ ms all h, omega (arith, few, length-append _ (ms ∷ [])))

  generate_from-AreAnswered :
      (rounds : ℕ) (w : W) (ms : List LlmMessage)
      → IsAnswered [] (construct_messages ms)
      → AreAnswered rounds (generate_from run generate rounds w ms).requests
  unfolding generate_from
  generate_from-AreAnswered zero w ms h = (tt, omega arith)
  generate_from-AreAnswered (suc rounds) w ms h =
      one_round-AreAnswered rounds w ms (generate w ms) (generate_from run generate rounds) h
        (generate_from-AreAnswered rounds)

  -- Whatever the model answers, whatever the tools do and whatever the stored history is, a chat asks
  -- the model at most ten times, and in each request every message has results for exactly the tools
  -- that the message before it uses, in the same order, and no use is left without its result.
  pub generate_chat-AreAnswered :
      (w : W) (msg : String) (history : List ChatMessage ⊎ String)
      → AreAnswered 10 (generate_chat run generate w (build_chat_history msg history)).requests
  unfolding generate_chat
  generate_chat-AreAnswered w msg history =
      generate_from-AreAnswered 10 w (build_chat_history msg history)
        (build_chat_history-IsAnswered msg history)
