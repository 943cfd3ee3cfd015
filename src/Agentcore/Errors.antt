-- ===== src/Agentcore/Errors.antt =====
-- agentcore/errors.go: errors with the path of nodes at which they arose, and a monad of results.
use covonaut.Base.{String, List, [], ◌∷◌, ◌≡◌, refl, ◌⊎◌, inl, inr}

-- What the packages report, by the text that they format.
pub data Failure : Type 0 where
  -- an error of a step, a node or a store that the program does not implement
  failed : String → Failure
  duplicate_node unknown_source unknown_target unknown_conditional_node : String → Failure
  has_conditional_edges has_static_edges entry_not_found reserved_name : String → Failure
  route_required targets_required entry_required cycle_detected exceed_max_steps : Failure
  no_matching_target node_not_found undeclared_target unknown_conditional_target : Failure
  no_step_found checkpoint_not_found node_name_required typed_graph_required : Failure
  runnable_required : (node : String) → Failure
  codec_required : (node : String) → Failure
  no_values merge_required : (location : String) → Failure
  -- a call of a method of a nil interface, which panics
  nil_dereference : Failure

-- `error`: a plain one, or a `*NodeError`.
pub data Error : Type 0 where
  plain : Failure → Error
  node_error : (path : List String) (failure : Failure) → Error

unfoldable pub new_node_error : Failure → List String → Error
new_node_error f path = node_error path f

unfoldable pub wrap_node_error : Error → String → Error
wrap_node_error (plain f) segment = node_error (segment ∷ []) f
wrap_node_error (node_error path f) segment = node_error (segment ∷ path) f

-- `errors.Is`: what remains of an error when its path is forgotten.
abbrev pub cause : Error → Failure
cause (plain f) = f
cause (node_error path f) = f

-- What a fallible Go function returns: `(T, error)`.
pub data Result {ℓ} (T : Type ℓ) : Type ℓ where
  err : Error → Result T
  ok : T → Result T

infixl 5 ◌>>=◌ ◌>>◌
abbrev pub ◌>>=◌ {κ ℓ} : {S : Type κ} {T : Type ℓ} → Result S → (S → Result T) → Result T
err failure >>= next = err failure
ok value >>= next = next value

abbrev pub ◌>>◌ {ℓ} : {T : Type ℓ} → Result (Unit {0}) → Result T → Result T
checked >> next = checked >>= λ _. next

pub Result-cases {ℓ} :
    {A : Type ℓ} (r : Result A) → ((a : A) × (r ≡ ok a)) ⊎ ((e : Error) × (r ≡ err e))
Result-cases (ok a) = inl (a, refl)
Result-cases (err e) = inr (e, refl)

-- Wrapping an error keeps its cause.
pub cause-wrap_node_error : (e : Error) (s : String) → cause (wrap_node_error e s) ≡ cause e
unfolding wrap_node_error
cause-wrap_node_error (plain f) s = refl
cause-wrap_node_error (node_error p f) s = refl

-- A successful bind has a successful first part.
pub >>=-eq-ok {ℓ κ} :
    {A : Type ℓ} {B : Type κ} (r : Result A) (f : A → Result B) {b : B}
    → (r >>= f) ≡ ok b
    → (a : A) × (r ≡ ok a) × (f a ≡ ok b)
>>=-eq-ok (ok a) f e = (a, refl, e)
>>=-eq-ok (err x) f e = cc
