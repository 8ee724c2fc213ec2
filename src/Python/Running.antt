-- ===== src/Python/Running.antt =====
-- Calls that may not have come to an end when the fuel of the model runs out.
use streaming_fpuna_proyecto.Base.{◌≡◌, refl, Option, none, some}
use streaming_fpuna_proyecto.Python.{Exception, Result, ok, raise}

-- what follows a call that may still be running, which is `none`
abbrev pub and_then :
    {A B : Type 0} → Option (Result A) → (A → Option (Result B)) → Option (Result B)
and_then none next = none
and_then (some (raise e)) next = some (raise e)
and_then (some (ok a)) next = next a

-- a call that ends, what holds of its result if it returns, and of its exception if it raises one
abbrev pub Ends : {A : Type 0} → (A → Type 0) → (Exception → Type 0) → Option (Result A) → Type 0
Ends P E none = ⊥
Ends P E (some (raise e)) = E e
Ends P E (some (ok a)) = P a

pub Ends-and_then :
    {A B : Type 0} (P : A → Type 0) (E : Exception → Type 0) (Q : B → Type 0)
    (F : Exception → Type 0) (call : Option (Result A)) (next : A → Option (Result B))
    → Ends P E call
    → ((e : Exception) → E e → F e)
    → ((a : A) → P a → Ends Q F (next a))
    → Ends Q F (and_then call next)
Ends-and_then P E Q F none next ended raised go_on = absurd ended
Ends-and_then P E Q F (some (raise e)) next ended raised go_on = raised e ended
Ends-and_then P E Q F (some (ok a)) next ended raised go_on = go_on a ended

pub Ends-some :
    {A : Type 0} (call : Result A) → Ends (λ a. call ≡ ok a) (λ e. call ≡ raise e) (some call)
Ends-some (raise e) = refl
Ends-some (ok a) = refl

pub Ends-of_call :
    {A : Type 0} (P : A → Type 0) (E : Exception → Type 0) (call : Result A)
    → ((a : A) → call ≡ ok a → P a)
    → ((e : Exception) → call ≡ raise e → E e)
    → Ends P E (some call)
Ends-of_call P E (raise e) returned raised = raised e refl
Ends-of_call P E (ok a) returned raised = returned a refl

pub Ends-map :
    {A : Type 0} (P Q : A → Type 0) (E : Exception → Type 0) (call : Option (Result A))
    → ((a : A) → P a → Q a)
    → Ends P E call
    → Ends Q E call
Ends-map P Q E none step h = absurd h
Ends-map P Q E (some (raise e)) step h = h
Ends-map P Q E (some (ok a)) step h = step a h
