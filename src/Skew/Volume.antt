-- ===== src/Skew/Volume.antt =====
-- The records of the reference scenarios of src/producer/skew_analysis.py: their number and their keys.
use Prim.Native.String.{char_at}
use package.text.Mathlib.TextLemmas.{cons-append}
use streaming_fpuna_proyecto.Base.{
  ℕ, zero, suc, ◌+◌, ◌-◌, ◌≤◌, ◌<◌, String, ◌≡◌, refl, ap, ◌∙◌, subst, false, List, [], ◌∷◌, length,
  All, arith, ltb, leb, if◌then◌else◌, Bool-cases, inl, inr, ◌==◌, eq_of_==, ==_self,
}
use streaming_fpuna_proyecto.Base.Text.{is_blank, is_blank-cons, is_space}
use streaming_fpuna_proyecto.Skew.{
  SkewRecord, PartitionSummary, hot_customer_id, three_digits, hot_record, balanced_records,
  hot_records, count_of, partition_summary, partition_summaries,
}

-- the records of a key
unfoldable pub key_count : String → List SkewRecord → ℕ
key_count key [] = 0
key_count key (r ∷ records) =
    let rest = key_count key records in if r.customer_id == key then suc rest else rest

pub key_count-step :
    (key : String) (r : SkewRecord) (records : List SkewRecord) (p q : ℕ) (xs : List ℕ)
    → (r.customer_id ≡ key → p ≡ q)
    → key_count key records ≤ count_of q xs
    → key_count key (r ∷ records) ≤ count_of q (p ∷ xs)
unfolding key_count count_of
key_count-step key r records p q xs same_slot ih = elim (Bool-cases (r.customer_id == key)) [
  | inl e ↦ let pq : p ≡ q = same_slot (eq_of_== r.customer_id key e) in ground arith
  | inr e ↦ ground arith
]

-- among the summaries is that of every partition
pub All-at :
    (P : PartitionSummary → Type 0) (records : List SkewRecord) (xs : List ℕ) (a n p : ℕ)
    → All P (partition_summaries records xs a n)
    → a ≤ p
    → p < a + n
    → P (partition_summary records xs p)
unfolding partition_summaries
All-at P records xs a zero p h low high = absurd (omega arith)
All-at P records xs a (suc n) p (here, h) low high = elim (Bool-cases (leb p a)) [
  | inl e ↦
      let same_p : a ≡ p = ground arith in
      subst (λ q. P (partition_summary records xs q)) same_p here
  | inr e ↦ All-at P records xs (suc a) n p h (ground arith) (omega arith)
]

-- every key has more than white space
abbrev pub AreFilled : List SkewRecord → Type 0
AreFilled = All (λ r. is_blank r.customer_id ≡ false)

pub balanced-AreFilled : (index n : ℕ) → AreFilled (balanced_records index n)
unfolding balanced_records is_space
balanced-AreFilled index zero = tt
balanced-AreFilled index (suc n) = (
  ap is_blank (cons-append (char_at "c" 0) "ust-balanced-" (three_digits index))
      ∙ is_blank-cons (char_at "c" 0) _ refl,
  balanced-AreFilled (suc index) n,
)

hot_record-filled : (h index : ℕ) → is_blank (hot_record h index).customer_id ≡ false
unfolding is_space
hot_record-filled h index = elim (Bool-cases (ltb index h)) [
  | inl e ↦ rw e (is_blank-cons (char_at "c" 0) "ust-hot-001" refl)
  | inr e ↦ rw e (
      ap is_blank (cons-append (char_at "c" 0) "ust-cold-" (three_digits (index - h)))
      ∙ is_blank-cons (char_at "c" 0) _ refl)
]

pub hot-AreFilled : (h index n : ℕ) → AreFilled (hot_records h index n)
unfolding hot_records
hot-AreFilled h index zero = tt
hot-AreFilled h index (suc n) = (hot_record-filled h index, hot-AreFilled h (suc index) n)

pub length-balanced_records : (index n : ℕ) → length (balanced_records index n) ≡ n
unfolding balanced_records
length-balanced_records index zero = refl
length-balanced_records index (suc n) = ap suc (length-balanced_records (suc index) n)

pub length-hot_records : (h index n : ℕ) → length (hot_records h index n) ≡ n
unfolding hot_records
length-hot_records h index zero = refl
length-hot_records h index (suc n) = ap suc (length-hot_records h (suc index) n)

-- the hot key has the records below the number of its events
pub key_count-hot :
    (h index n : ℕ) → h ≤ index + n → h ≤ key_count hot_customer_id (hot_records h index n) + index
unfolding key_count hot_records
key_count-hot h index zero le = omega arith
key_count-hot h index (suc n) le =
    let ih = key_count-hot h (suc index) n (omega arith) in
    elim (Bool-cases (ltb index h)) [
      | inl e ↦ rw (e, ==_self hot_customer_id) (omega arith)
      | inr e ↦ ground arith
    ]
