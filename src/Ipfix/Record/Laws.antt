-- ===== src/Ipfix/Record/Laws.antt =====
-- The values of a data record: src/msg/mnslp_ipfix_data_record.cpp.
use m_nslp.Prelude.{
  ℕ, ◌+◌, ◌<◌, ◌≡◌, ◌≢◌, refl, Option, none, some, List, [], ◌∷◌, arith, ◌==◌, if◌then◌else◌,
}
use m_nslp.Ipfix.{Value, value, bad_argument}
use m_nslp.Ipfix.Field.{FieldKey, weight}
use m_nslp.Ipfix.Record.{DataRecord, insert, find, insert_field, get_value, found_value}

-- Every key weighs more than `n`, and they ascend, as in a std::map.
abbrev pub Above : ℕ → List (FieldKey × Value) → Type 0
Above n [] = Unit
Above n ((k, v) ∷ rest) = (n < weight k) × Above (weight k) rest

abbrev pub IsSorted : List (FieldKey × Value) → Type 0
IsSorted [] = Unit
IsSorted ((k, v) ∷ rest) = Above (weight k) rest

find_below :
    (j : FieldKey) (n : ℕ) (s : List (FieldKey × Value))
    → Above n s
    → weight j < n + 1
    → find j s ≡ none
unfolding find
find_below j n [] h l = refl
find_below j n ((k, v) ∷ rest) h l = ground arith

-- The value under a key that weighs as much as the inserted one: the old one, if there is one.
abbrev pub kept : Option Value → Value → Value
kept none v = v
kept (some w) v = w

-- What a search finds after an insertion.
abbrev pub after_insert : FieldKey → FieldKey → Value → List (FieldKey × Value) → Option Value
after_insert i j v s = if weight i == weight j then some (kept (find j s) v) else find j s

find-insert-Above :
    (i j : FieldKey) (v : Value) (n : ℕ) (s : List (FieldKey × Value))
    → Above n s
    → find j (insert i v s) ≡ after_insert i j v s
unfolding find insert
find-insert-Above i j v n [] h = ground arith
find-insert-Above i j v n ((k, w) ∷ rest) h =
    ground (arith, find-insert-Above i j v (weight k) rest h.1, find_below j (weight k) rest h.1)

Above-insert :
    (i : FieldKey) (v : Value) (n : ℕ) (s : List (FieldKey × Value))
    → Above n s
    → n < weight i
    → Above n (insert i v s)
unfolding insert
Above-insert i v n [] h l = (l, tt)
Above-insert i v n ((k, w) ∷ rest) h l = ground (arith, Above-insert i v (weight k) rest h.1)

find-insert :
    (i j : FieldKey) (v : Value) (s : List (FieldKey × Value))
    → IsSorted s
    → find j (insert i v s) ≡ after_insert i j v s
unfolding find insert
find-insert i j v [] h = ground arith
find-insert i j v ((k, w) ∷ rest) h =
    ground (arith, find-insert-Above i j v (weight k) rest h, find_below j (weight k) rest h)

IsSorted-insert :
    (i : FieldKey) (v : Value) (s : List (FieldKey × Value)) → IsSorted s → IsSorted (insert i v s)
unfolding insert
IsSorted-insert i v [] h = tt
IsSorted-insert i v ((k, w) ∷ rest) h = ground (arith, Above-insert i v (weight k) rest h)

others :
    (i j : FieldKey) (v : Value) (o : Option Value)
    → weight i ≢ weight j
    → found_value (if weight i == weight j then some (kept o v) else o) ≡ found_value o
others i j v o h = ground arith

fresh :
    (i j : FieldKey) (v : Value) (o : Option Value)
    → weight i ≡ weight j
    → found_value o ≡ bad_argument
    → found_value (if weight i == weight j then some (kept o v) else o) ≡ value v
fresh i j v none e h = ground arith
fresh i j v (some w) e h = ground arith

taken :
    (i j : FieldKey) (v w : Value) (o : Option Value)
    → weight i ≡ weight j
    → found_value o ≡ value w
    → found_value (if weight i == weight j then some (kept o v) else o) ≡ value w
taken i j v w none e h = ground arith
taken i j v w (some u) e h = ground arith

-- A field whose enterprise number and type weigh differently keeps its value, or stays absent, when
-- another field is inserted; a field of the same weight keeps the value that it had first, and
-- gets the new one only if it had none. The map stays in order.
get_value-insert_field :
    (i j : FieldKey) (v : Value) (r : DataRecord)
    → IsSorted r.field_data
    → (weight i ≢ weight j → get_value j (insert_field i v r) ≡ get_value j r)
      × (weight i ≡ weight j
          → get_value j r ≡ bad_argument
          → get_value j (insert_field i v r) ≡ value v)
      × ((w : Value)
          → weight i ≡ weight j
          → get_value j r ≡ value w
          → get_value j (insert_field i v r) ≡ value w)
      × IsSorted (insert_field i v r).field_data
unfolding get_value insert_field
get_value-insert_field i j v r h = rw (find-insert i j v r.field_data h) (
  others i j v (find j r.field_data),
  fresh i j v (find j r.field_data),
  λ w. taken i j v w (find j r.field_data),
  IsSorted-insert i v r.field_data h,
)
