-- ===== src/SessionDb/Rows.antt =====
-- Adding rows to `messages_in`: the next sequence number, and when an insert throws
-- (`nextEvenSeq`, `insertMessage`, `src/db/session-db.ts`).
use lfontes_nanoclaw.Prelude.{
  ◌==◌, ◌===◌, if◌then◌else◌, any, All, All-imp, le-max_of, ℕ, ◌%◌, ◌<◌, String, ◌≡◌, refl, Bool,
  ◌||◌, none, some, List, [], ◌∷◌, ◌++◌, map, arith,
}
use lfontes_nanoclaw.SessionDb.{MessageIn, InDb, next_even_seq, add_row}

abbrev pub in_seqs : InDb → List ℕ
in_seqs db = map (λ (m : MessageIn). m.seq) db.messages_in

abbrev pub has_id : InDb → String → Bool
has_id db id = any (λ m. m.id === id) db.messages_in

pub next_even_seq-even : (db : InDb) → next_even_seq db % 2 ≡ 0
unfolding next_even_seq
next_even_seq-even db = ground arith

pub next_even_seq-above : (db : InDb) → All (λ m. m.seq < next_even_seq db) db.messages_in
unfolding next_even_seq
next_even_seq-above db =
    All-imp _ _ db.messages_in (λ m h. ground arith)
      (le-max_of (λ (m : MessageIn). m.seq) db.messages_in)

no_clash :
    (n : ℕ) (id : String) (rows : List MessageIn)
    → All (λ m. m.seq < n) rows
    → any (λ m. m.id === id || m.seq == n) rows ≡ any (λ m. m.id === id) rows
no_clash n id [] h = refl
no_clash n id (m ∷ rows) h = ground (arith, no_clash n id rows h.1)

-- A row with the next number is refused exactly if its id is taken.
pub add_row_lem :
    (db : InDb) (row : MessageIn)
    → row.seq ≡ next_even_seq db
    → add_row db row ≡ (
        if has_id db row.id
        then none
        else some (record db { messages_in = db.messages_in ++ row ∷ [] }))
unfolding add_row
add_row_lem db row e = rw (
    no_clash row.seq row.id db.messages_in
      (All-imp _ _ db.messages_in (λ m h. omega arith) (next_even_seq-above db)))

pub add_row-some :
    (db j : InDb) (row : MessageIn)
    → add_row db row ≡ some j
    → j ≡ record db { messages_in = db.messages_in ++ row ∷ [] }
unfolding add_row
add_row-some db j row e = ground arith
