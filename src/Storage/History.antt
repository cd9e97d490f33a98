-- ===== src/Storage/History.antt =====
-- What a client reads back of the messages, the keys and the members that it has stored.
use enxame.Base.{
  ℕ, suc, ◌<◌, String, ◌≡◌, ◌∙◌, ap, refl, Bool, true, false, List, [], ◌∷◌, ◌++◌, arith, eq_iff,
  eq_refl, any, take, map, filter_by, filter_by-true, filter_by-false, Bool-cases, inl, inr,
}
use enxame.Base.Text.{◌==◌}
use enxame.Base.Exec.{ok}
use enxame.Storage.{
  Message, Storage, Machine, Statement, insert_message, select_messages, has_message_id,
  put_message, store_message,
}
use enxame.Storage.Queries.{scanned, get_messages}
use mathlib.Core.List.{reverse, reverse-cons}

abbrev pub Works : Machine → Statement → Type 0
Works machine st = machine.fails st ≡ false

-- The row of a new message.
abbrev pub row_of : ℕ → String → String → String → String → Storage → Message
row_of now id sender target content s = record {
  id = s.next_id;
  message_id = id;
  sender_id = sender;
  target = target;
  content = content;
  timestamp = now;
}

abbrev is_for : String → Message → Bool
is_for other m = m.target == other

abbrev history : String → ℕ → Storage → List Message
history other limit s =
    reverse (map scanned (take limit (filter_by (λ m. m.target == other) s.messages)))

get_messages_lem :
    (reader : Machine) (other : String) (limit : ℕ) (s : Storage)
    → Works reader select_messages
    → (get_messages reader other limit s).0 ≡ ok (history other limit s)
unfolding get_messages
get_messages_lem reader other limit s works = rw works refl

get_messages_ok :
    (reader : Machine) (other : String) (limit : ℕ) (s : Storage) (old : List Message)
    → (get_messages reader other limit s).0 ≡ ok old
    → Works reader select_messages × (history other limit s ≡ old)
unfolding get_messages
get_messages_ok reader other limit s old h = elim (Bool-cases (reader.fails select_messages)) [
  | inl failing ↦ ground (arith, failing, h)
  | inr works ↦ (works, cc (h, get_messages_lem reader other limit s works))
]

eq_false : (a b : String) → (a ≡ b → ⊥) → a == b ≡ false
eq_false a b differ = ground (arith, eq_iff a b, differ)

history_of_new :
    (other : String) (limit : ℕ) (m : Message) (s t : Storage)
    → t.messages ≡ m ∷ s.messages
    → (m.target ≡ other → history other (suc limit) t ≡ history other limit s ++ scanned m ∷ [])
      × ((m.target ≡ other → ⊥) → history other limit t ≡ history other limit s)
history_of_new other limit m s t e = (
  λ same.
      ap (λ ms. reverse (map scanned (take (suc limit) (filter_by (is_for other) ms)))) e
      ∙ ap (λ ms. reverse (map scanned (take (suc limit) ms)))
          (filter_by-true (is_for other) m s.messages (ground (arith, same, eq_refl other)))
      ∙ reverse-cons (scanned m) (map scanned (take limit (filter_by (is_for other) s.messages))),
  λ differ.
      ap (λ ms. reverse (map scanned (take limit (filter_by (is_for other) ms)))) e
      ∙ ap (λ ms. reverse (map scanned (take limit ms)))
          (filter_by-false (is_for other) m s.messages (eq_false m.target other differ)),
)

pub store_message_new :
    (writer : Machine) (id sender target content : String) (s : Storage)
    → Works writer insert_message
    → any (has_message_id id) s.messages ≡ false
    → (store_message writer id sender target content s).1.messages
      ≡ row_of writer.now id sender target content s ∷ s.messages
unfolding store_message put_message
store_message_new writer id sender target content s works new = ground (arith, works, new)

store_message_known :
    (writer : Machine) (id sender target content : String) (s : Storage)
    → any (has_message_id id) s.messages ≡ true
    → (store_message writer id sender target content s).1 ≡ s
unfolding store_message put_message
store_message_known writer id sender target content s known =
    elim (Bool-cases (writer.fails insert_message)) [
      | inl failing ↦ rw failing refl
      | inr works ↦ rw (works, known) refl
    ]

-- A message with a new id becomes the last of its target's history, whose limit makes room for one more,
-- but is read back without its message id, and no other history changes; a message whose id is stored
-- changes nothing.
pub get_messages-store_message :
    (writer reader : Machine) (id sender target content other : String) (limit : ℕ)
    (old : List Message) (s : Storage)
    → Works writer insert_message
    → (get_messages reader other limit s).0 ≡ ok old
    → (any (has_message_id id) s.messages ≡ false
        → ((target ≡ other)
            → (get_messages reader other
                (suc limit)
                (store_message writer id sender target content s).1).0
              ≡ ok (
                  old
                  ++ record (row_of writer.now id sender target content s) { message_id = "" }
                    ∷ []))
          × ((target ≡ other → ⊥)
              → (get_messages reader other limit
                  (store_message writer id sender target content s).1).0
                ≡ ok old))
      × (any (has_message_id id) s.messages ≡ true
          → (store_message writer id sender target content s).1 ≡ s)
get_messages-store_message writer reader id sender target content other limit old s works h =
    let (reads, past) = get_messages_ok reader other limit s old h in
    let t : Storage = (store_message writer id sender target content s).1 in
    let new_row : Message = row_of writer.now id sender target content s in
    (
      λ new.
          let change =
            history_of_new other limit new_row s t
              (store_message_new writer id sender target content s works new) in
          (
            λ same.
                get_messages_lem reader other (suc limit) t reads
                ∙ ap ok (change.0 same ∙ ap (λ ms. ms ++ scanned new_row ∷ []) past),
            λ differ. get_messages_lem reader other limit t reads ∙ ap ok (change.1 differ ∙ past),
          ),
      λ known. store_message_known writer id sender target content s known,
    )

-- No two messages have one message id, their ids descend, and all are below the next.
abbrev pub IsOrdered : ℕ → List Message → Type 0
IsOrdered next [] = Unit
IsOrdered next (m ∷ ms) =
    (m.id < next) × (any (has_message_id m.message_id) ms ≡ false) × IsOrdered m.id ms

pub store_message-IsOrdered :
    (machine : Machine) (id sender target content : String) (s : Storage)
    → IsOrdered s.next_id s.messages
    → IsOrdered
        (store_message machine id sender target content s).1.next_id
        (store_message machine id sender target content s).1.messages
unfolding store_message put_message
store_message-IsOrdered machine id sender target content s h =
    elim (Bool-cases (any (has_message_id id) s.messages)) [
      | inl known ↦ ground (arith, known, h)
      | inr new ↦ ground (arith, new, h)
    ]
