-- ===== src/Handlers/Runs.antt =====
-- How a handler in progress (server/handlers.go) came to go on: the steps of a sequence, one by one.
use mcp_server_dynamodb_sage.Prelude.{String, ◌≡◌, refl, ◌⊎◌, inl, inr}
use mcp_server_dynamodb_sage.Handlers.Effects.{
  Reply, error, reply, Trace, M, Step, returned, goes, resume, ◌>>=◌,
}

pub Reply-cases :
    {A : Type 0} (o : Reply A) → ((e : String) × (o ≡ error e)) ⊎ ((a : A) × (o ≡ reply a))
Reply-cases (error e) = inl (e, refl)
Reply-cases (reply a) = inr (a, refl)

-- A step that went on, and where.
pub record WentOn {A : Type 0} (m : M A) (w : Trace) : Type 0 where
  pub value : A
  pub trace : Trace
  pub is_run : m w ≡ (trace, goes value)

went_on :
    {A B : Type 0} (m : M A) (f : A → M B) (w w' : Trace) (b : B) (p : Trace × Step A)
    → m w ≡ p
    → resume f p ≡ (w', goes b)
    → (run : WentOn m w) × (f run.value run.trace ≡ (w', goes b))
went_on m f w w' b (v, returned r) e h = absurd (cc)
went_on m f w w' b (v, goes a) e h = (record { value = a; trace = v; is_run = e }, h)

-- A sequence that went on did so after its first step.
pub bind_lem :
    {A B : Type 0} (m : M A) (f : A → M B) (w w' : Trace) (b : B)
    → (m >>= f) w ≡ (w', goes b)
    → (run : WentOn m w) × (f run.value run.trace ≡ (w', goes b))
bind_lem m f w w' b h = went_on m f w w' b (m w) refl h
