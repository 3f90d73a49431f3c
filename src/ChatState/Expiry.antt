-- ===== src/ChatState/Expiry.antt =====
-- What a value that was set is read as, with its time of expiry.
use lfontes_nanoclaw.Prelude.{
  leb, zero, suc, ◌+◌, if◌then◌else◌, ===_refl, Bool-cases, All, first, delete, All-delete,
  delete-append, delete_fails, ℕ, String, ◌≡◌, refl, ap, ◌∙◌, inl, inr, Bool, false, Option, none,
  some, List, [], ◌∷◌, ◌++◌, arith,
}
use lfontes_nanoclaw.ChatState.{
  KvRow, StateDb, is_expired, has_expired, expiry, has_key, cleanup, found, get, set,
}

has_expired_live : (now : ℕ) (e : Option ℕ) → is_expired now e ≡ false → has_expired now e ≡ false
has_expired_live now none h = refl
has_expired_live now (some t) h = ground arith

first-skip :
    {A : Type 0} (p : A → Bool) (xs ys : List A)
    → All (λ x. p x ≡ false) xs
    → first p (xs ++ ys) ≡ first p ys
unfolding first
first-skip p [] ys h = refl
first-skip p (x ∷ xs) ys h = ground (arith, h.0, first-skip p xs ys h.1)

get-set_unexpired :
    (db : StateDb) (now later : ℕ) (key value : String) (ttl_ms : Option ℕ)
    → (get (set db now key value ttl_ms) later key).1
      ≡ (if is_expired later (expiry now ttl_ms) then none else some value)
unfolding get set cleanup delete first
get-set_unexpired db now later key value ttl_ms =
    let old = λ (r : KvRow). is_expired later r.expires_at in
    let row : KvRow = record { key = key; value = value; expires_at = expiry now ttl_ms } in
    let none_left =
      All-delete (λ (r : KvRow). has_key key r ≡ false) old (delete (has_key key) db.kv)
        (delete_fails (has_key key) db.kv) in
    let e =
      ap (first (has_key key)) (delete-append old (delete (has_key key) db.kv) (row ∷ []))
      ∙ first-skip (has_key key) (delete old (delete (has_key key) db.kv)) (delete old (row ∷ []))
          none_left in
    let answer =
      λ (o : Option KvRow). (found later (cleanup (set db now key value ttl_ms) later) key o).1 in
    elim (Bool-cases (is_expired later (expiry now ttl_ms))) [
      | inl b ↦
          let gone : first (has_key key) (delete old (row ∷ [])) ≡ none = rw b refl in
          ap answer (e ∙ gone) ∙ rw b refl
      | inr b ↦
          let kept : first (has_key key) (delete old (row ∷ [])) ≡ some row =
            rw (b, ===_refl key) refl in
          ap answer (e ∙ kept) ∙ rw (b, has_expired_live later (expiry now ttl_ms) b) refl
    ]

-- What is left of a value that was set at `now`: without a time to live, or with 0, it stays.
abbrev pub read_back : ℕ → ℕ → String → Option ℕ → Option String
read_back now later value none = some value
read_back now later value (some zero) = some value
read_back now later value (some (suc n)) = if leb later (now + suc n) then some value else none

read_back_lem :
    (now later : ℕ) (value : String) (ttl_ms : Option ℕ)
    → (if is_expired later (expiry now ttl_ms) then none else some value)
      ≡ read_back now later value ttl_ms
read_back_lem now later value none = refl
read_back_lem now later value (some zero) = refl
read_back_lem now later value (some (suc n)) = ground arith

-- A value that was set is read back up to its time of expiry, that time included, and as missing
-- after that, whatever was there before; without a time to live (or with 0) it stays.
pub get-set :
    (db : StateDb) (now later : ℕ) (key value : String) (ttl_ms : Option ℕ)
    → (get (set db now key value ttl_ms) later key).1 ≡ read_back now later value ttl_ms
get-set db now later key value ttl_ms =
    get-set_unexpired db now later key value ttl_ms ∙ read_back_lem now later value ttl_ms
