-- ===== src/Tunnel/Cancel.antt =====
-- internal/tunnel/cancel.go: the functions that cancel a request in progress, by the request's id. A
-- `context.CancelFunc` is the number of its context; calling it adds the context to `cancelled`.
use oes_birger.Prelude.{
  ℕ, String, ◌≡◌, refl, List, [], ◌∷◌, none, some, lookup, insert, delete, lookup-insert,
  lookup-delete, arith, eq_refl, eq_iff, ◌≢◌, All, ◌∙◌,
}

pub record CancelRegistry : Type 0 where
  pub m : List (String × ℕ)
  pub cancelled : List ℕ

unfoldable pub register_cancel_function : String → ℕ → CancelRegistry → CancelRegistry
register_cancel_function id cancel r = record r { m = insert id cancel r.m }

unfoldable pub unregister_cancel_function : String → CancelRegistry → CancelRegistry
unregister_cancel_function id r = record r { m = delete id r.m }

unfoldable pub call_cancel_function : String → CancelRegistry → CancelRegistry
call_cancel_function id r = elim (lookup id r.m) [
  | none ↦ r
  | some cancel ↦ record r { cancelled = cancel ∷ r.cancelled }
]

-- What the goroutines of the requests do to the registry, one under the lock at a time.
pub data Op : Type 0 where
  register : String → ℕ → Op
  unregister : String → Op
  call : String → Op

abbrev pub target : Op → String
target (register id cancel) = id
target (unregister id) = id
target (call id) = id

unfoldable pub step : Op → CancelRegistry → CancelRegistry
step (register id cancel) = register_cancel_function id cancel
step (unregister id) = unregister_cancel_function id
step (call id) = call_cancel_function id

unfoldable pub run : List Op → CancelRegistry → CancelRegistry
run [] r = r
run (op ∷ ops) r = run ops (step op r)

lookup-step :
    (id : String) (op : Op) (r : CancelRegistry)
    → target op ≢ id
    → lookup id (step op r).m ≡ lookup id r.m
unfolding step register_cancel_function unregister_cancel_function call_cancel_function
lookup-step id (register j cancel) r h = ground (arith, lookup-insert j id cancel r.m, eq_iff j id)
lookup-step id (unregister j) r h = ground (arith, lookup-delete j id r.m, eq_iff j id)
lookup-step id (call j) r h = ground arith

lookup-run :
    (id : String) (ops : List Op) (r : CancelRegistry)
    → All (λ op. target op ≢ id) ops
    → lookup id (run ops r).m ≡ lookup id r.m
unfolding run
lookup-run id [] r h = refl
lookup-run id (op ∷ ops) r h = lookup-run id ops (step op r) h.1 ∙ lookup-step id op r h.0

-- Whatever the other requests do after a request was registered, a call for its id cancels its
-- context, and nothing else.
pub call_cancel_function-register :
    (id : String) (ctx : ℕ) (ops : List Op) (r : CancelRegistry)
    → All (λ op. target op ≢ id) ops
    → let r' = run ops (register_cancel_function id ctx r) in
      call_cancel_function id r' ≡ record r' { cancelled = ctx ∷ r'.cancelled }
unfolding register_cancel_function call_cancel_function
call_cancel_function-register id ctx ops r h = ground (
  arith,
  lookup-run id ops (register_cancel_function id ctx r) h,
  lookup-insert id id ctx r.m,
  eq_refl id,
)

-- Once a request has unregistered, a call for its id does nothing, whatever the others do.
pub call_cancel_function-unregister :
    (id : String) (ops : List Op) (r : CancelRegistry)
    → All (λ op. target op ≢ id) ops
    → let r' = run ops (unregister_cancel_function id r) in call_cancel_function id r' ≡ r'
unfolding unregister_cancel_function call_cancel_function
call_cancel_function-unregister id ops r h = ground (
  arith,
  lookup-run id ops (unregister_cancel_function id r) h,
  lookup-delete id id r.m,
  eq_refl id,
)
