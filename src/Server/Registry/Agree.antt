-- ===== src/Server/Registry/Agree.antt =====
-- The tools that server/tools.go registers, and those that the chat of server/chat.go dispatches on.
use mcp_server_dynamodb_sage.Prelude.{
  String, true, ◌≡◌, refl, sym, ◌∙◌, inl, inr, Option, none, some, All, Assoc, str_eq, lookup,
  lookup-All, Option-cases,
}
use mcp_server_dynamodb_sage.Server.Tools.{tool_table, tool_by_name}
use mcp_server_dynamodb_sage.Server.Registry.{add_tools}

-- Two maps agree where each holds the other's entries.
lookup_same :
    {V : Type 0} (m n : Assoc V) (k : String)
    → All (λ e. lookup e.0 n ≡ some e.1) m
    → All (λ e. lookup e.0 m ≡ some e.1) n
    → lookup k m ≡ lookup k n
lookup_same m n k there back = elim (Option-cases (lookup k m)) [
  | inr (v, e) ↦ e ∙ sym (lookup-All (λ j w. lookup j n ≡ some w) k m e there)
  | inl missing ↦ elim (Option-cases (lookup k n)) [
    | inl none_too ↦ missing ∙ sym none_too
    | inr (v, e) ↦ e_of v (lookup-All (λ j w. lookup j m ≡ some w) k n e back) missing e
  ]
]
  where
    e_of : {A : Type 0} {x y : Option A} (v : A) → x ≡ some v → x ≡ none → y ≡ some v → x ≡ y
    e_of v p q r = p ∙ sym r

-- Where documents are configured, a client of the protocol and the chat reach the same tools by the
-- same names, and the same of them by way of the risk analysis.
pub registered_as_dispatched : (name : String) → lookup name (add_tools true) ≡ tool_by_name name
unfolding add_tools tool_by_name str_eq
registered_as_dispatched name =
    lookup_same (add_tools true) tool_table name
      (
        refl,
        (
          refl,
          (
            refl,
            (
              refl,
              (
                refl,
                (
                  refl,
                  (
                    refl,
                    (
                      refl,
                      (
                        refl,
                        (
                          refl,
                          (
                            refl,
                            (refl, (refl, (refl, (refl, (refl, (refl, (refl, (refl, tt)))))))),
                          ),
                        ),
                      ),
                    ),
                  ),
                ),
              ),
            ),
          ),
        ),
      )
      (
        refl,
        (
          refl,
          (
            refl,
            (
              refl,
              (
                refl,
                (
                  refl,
                  (
                    refl,
                    (
                      refl,
                      (
                        refl,
                        (
                          refl,
                          (
                            refl,
                            (refl, (refl, (refl, (refl, (refl, (refl, (refl, (refl, tt)))))))),
                          ),
                        ),
                      ),
                    ),
                  ),
                ),
              ),
            ),
          ),
        ),
      )
