-- ===== src/Alerts/Key.antt =====
-- The customer and the window in the stable key of src/pipeline/alerts.py.
use Prim.Native.Char.{Char}
use Prim.Native.String.{◌++◌ as ◌<>◌, char_at, [], ◌∷◌}
use mathlib.Core.Path.{ap₂}
use text.Mathlib.TextLemmas.{cons-append, nil-append, append_assoc, append_cancel_left}
use streaming_fpuna_proyecto.Base.{String, ◌≡◌, refl, sym, ap, ◌∙◌, subst, false, arith}
use streaming_fpuna_proyecto.Base.Int.{ℤ, leb_ℤ}
use streaming_fpuna_proyecto.Base.Text.{is_blank, is_blank-cons, is_space}
use streaming_fpuna_proyecto.Base.Decimal.{decimal_ℤ, decimal_ℤ-injective, Lacks, Lacks-decimal_ℤ}
use streaming_fpuna_proyecto.Python.{ok}
use streaming_fpuna_proyecto.Alerts.{velocity_alert_key}

abbrev bar : Char
bar = char_at "|" 0

bar-append : (s : String) → "|" <> s ≡ bar ∷ s
bar-append s = cons-append bar [] s ∙ ap (◌∷◌ bar) (nil-append s)

not-Lacks : (a b : String) → Lacks 124 (a <> (bar ∷ b)) → ⊥
not-Lacks [] b h = (subst (Lacks 124) (nil-append _) h).0 refl
not-Lacks (c ∷ a) b h = not-Lacks a b (subst (Lacks 124) (cons-append c a _) h).1

cons-inj : {c d : Char} {s t : String} → c ∷ s ≡ d ∷ t → (c ≡ d) × (s ≡ t)
cons-inj e = (cc, cc)

-- The last bar of a text can be found again.
split_last :
    (a b a' b' : String)
    → Lacks 124 b
    → Lacks 124 b'
    → a <> (bar ∷ b) ≡ a' <> (bar ∷ b')
    → (a ≡ a') × (b ≡ b')
split_last [] b [] b' h h' e = (refl, (cons-inj (sym (nil-append _) ∙ (e ∙ nil-append _))).1)
split_last [] b (c ∷ a') b' h h' e =
    let tails = (cons-inj (sym (nil-append _) ∙ (e ∙ cons-append c a' _))).1 in
    absurd (not-Lacks a' b' (subst (Lacks 124) tails h))
split_last (c ∷ a) b [] b' h h' e =
    let tails = (cons-inj (sym (nil-append _) ∙ (sym e ∙ cons-append c a _))).1 in
    absurd (not-Lacks a b (subst (Lacks 124) tails h'))
split_last (c ∷ a) b (d ∷ a') b' h h' e =
    let (heads, tails) = cons-inj (sym (cons-append c a _) ∙ (e ∙ cons-append d a' _)) in
    let (same, rest) = split_last a b a' b' h h' tails in (ap₂ ◌∷◌ heads same, rest)

key_text : String → ℤ → ℤ → String
key_text customer_id start finish =
    "velocity|" <> (customer_id <> ("|" <> (decimal_ℤ start <> ("|" <> decimal_ℤ finish))))

-- the key with its last bar in front of the end of the window
key_text-last :
    (c : String) (s f : ℤ)
    → key_text c s f ≡ "velocity|" <> ((c <> (bar ∷ decimal_ℤ s)) <> (bar ∷ decimal_ℤ f))
unfolding key_text
key_text-last c s f =
    ap (λ t. "velocity|" <> t)
      (ap (λ t. c <> t)
          (bar-append _
            ∙ (ap (λ t. bar ∷ (decimal_ℤ s <> t)) (bar-append _) ∙ sym (cons-append bar _ _)))
        ∙ sym (append_assoc c _ _))

key_text-injective :
    (c d : String) (s f s' f' : ℤ)
    → key_text c s f ≡ key_text d s' f'
    → (c ≡ d) × (s ≡ s') × (f ≡ f')
key_text-injective c d s f s' f' e =
    let no_bar = λ (n : ℤ). Lacks-decimal_ℤ 124 n (omega arith) in
    let rest =
      append_cancel_left "velocity|" _ _
        (sym (key_text-last c s f) ∙ (e ∙ key_text-last d s' f')) in
    let (fronts, ends) = split_last _ _ _ _ (no_bar f) (no_bar f') rest in
    let (customers, starts) = split_last _ _ _ _ (no_bar s) (no_bar s') fronts in
    (customers, decimal_ℤ-injective s s' starts, decimal_ℤ-injective f f' ends)

key-ok :
    (c : String) (s f : ℤ) {k : String}
    → velocity_alert_key c s f ≡ ok k
    → (is_blank c ≡ false) × (leb_ℤ f s ≡ false) × (k ≡ key_text c s f)
unfolding velocity_alert_key key_text
key-ok c s f h = ground arith

-- a key is not blank, since it starts with a letter
pub is_blank-key :
    (c : String) (s f : ℤ) {k : String} → velocity_alert_key c s f ≡ ok k → is_blank k ≡ false
unfolding key_text is_space
is_blank-key c s f h =
    let (_, _, e) = key-ok c s f h in
    let letter = char_at "v" 0 in
    rw e (
      ap is_blank
        (cons-append letter "elocity|" (c <> ("|" <> (decimal_ℤ s <> ("|" <> decimal_ℤ f)))))
      ∙ is_blank-cons letter _ refl)

-- Two keys are equal only if they belong to the same customer and the same window, whatever
-- characters the customers' identifiers hold.
pub velocity_alert_key-injective :
    (c d : String) (s f s' f' : ℤ) {k : String}
    → velocity_alert_key c s f ≡ ok k
    → velocity_alert_key d s' f' ≡ ok k
    → (c ≡ d) × (s ≡ s') × (f ≡ f')
velocity_alert_key-injective c d s f s' f' h h' =
    let (_, _, e) = key-ok c s f h in
    let (_, _, e') = key-ok d s' f' h' in key_text-injective c d s f s' f' (sym e ∙ e')
