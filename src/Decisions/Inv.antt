-- ===== src/Decisions/Inv.antt =====
-- The representation invariant of `Log` (internal/application/decisions/log.go).
use promptshield_beta.Base.{
  ℕ, zero, suc, ◌+◌, ◌-◌, ◌%◌, ◌≤◌, ◌<◌, ◌≡◌, refl, ◌≢◌, ltb, ◌==◌, length, get_or, set, arith, ap,
  if◌then◌else◌, List, [], ◌∷◌, dec_lt, length-set, replicate, length-replicate,
}
use promptshield_beta.Decisions.{
  Log, slot, new_log, add, ℤ, stamp, Record, is_pos, pos_part, zero_record, default_capacity,
}
use native.Mathlib.Nat.{mod-eq_of_lt, mod-eq-sub-mod, mod-lt}

-- The ring is not empty, its cursor is inside, and offset `i` from the cursor holds the record
-- with sequence number `total + 1 - i`.
pub record IsValid (l : Log) : Type 0 where
  pub cap_pos : 0 < length l.buf
  pub next_in : l.next < length l.buf
  pub size_le_cap : l.size ≤ length l.buf
  pub size_le_total : l.size ≤ l.total
  pub seqs : (i : ℕ) → 0 < i → i ≤ l.size → (slot l i).seq + i ≡ l.total + 1

module _ {ℓ} {A : Type ℓ} where
  pub get_or-set_self :
      (xs : List A) (i : ℕ) (v d : A) → i < length xs → get_or (set xs i v) i d ≡ v
  get_or-set_self [] i v d h = elim h [ ]
  get_or-set_self (x ∷ xs) zero v d h = refl
  get_or-set_self (x ∷ xs) (suc i) v d h = get_or-set_self xs i v d (omega arith)

  pub get_or-set_ne :
      (xs : List A) (i j : ℕ) (v d : A) → i ≢ j → get_or (set xs i v) j d ≡ get_or xs j d
  get_or-set_ne [] i j v d h = refl
  get_or-set_ne (x ∷ xs) zero zero v d h = absurd (h refl)
  get_or-set_ne (x ∷ xs) zero (suc j) v d h = refl
  get_or-set_ne (x ∷ xs) (suc i) zero v d h = refl
  get_or-set_ne (x ∷ xs) (suc i) (suc j) v d h = get_or-set_ne xs i j v d (λ e. h (ap suc e))

-- Where offset `i` behind the cursor `c` stands in a ring of `n` slots.
ring_index :
    (n c i : ℕ) → c < n → 0 < i → i ≤ n → (c + n - i) % n ≡ (if ltb c i then c + n - i else c - i)
ring_index n c i h p q = elim (dec_lt c i) [
  | yes k ↦ ground (arith, mod-eq_of_lt {n = c + n - i} {m = n} (omega arith))
  | no k ↦ ground (
    arith,
    mod-eq-sub-mod {n = c + n - i} {m = n} (omega arith),
    mod-eq_of_lt {n = c + n - i - n} {m = n} (omega arith),
  )
]

-- The cursor after `Add`.
ring_next : (n c : ℕ) → c < n → (c + 1) % n ≡ (if c + 1 == n then 0 else c + 1)
ring_next n c h = elim (dec_lt (c + 1) n) [
  | yes k ↦ ground (arith, mod-eq_of_lt {n = c + 1} {m = n} k)
  | no k ↦ ground (
    arith,
    mod-eq-sub-mod {n = c + 1} {m = n} (omega arith),
    mod-eq_of_lt {n = c + 1 - n} {m = n} (omega arith),
  )
]

ring_first : (n c : ℕ) → c < n → ((c + 1) % n + n - 1) % n ≡ c
ring_first n c h =
    ground
      (arith, ring_next n c, ring_index n ((c + 1) % n) 1, mod-lt (c + 1) {m = n} (omega arith))

ring_older : (n c i : ℕ) → c < n → 0 < i → i < n → ((c + 1) % n + n - suc i) % n ≡ (c + n - i) % n
ring_older n c i h p q =
    ground (arith, ring_next n c, ring_index n ((c + 1) % n) (suc i), ring_index n c i)

ring_ne : (n c i : ℕ) → c < n → 0 < i → i < n → c ≢ (c + n - i) % n
ring_ne n c i h p q = ground (arith, ring_index n c i)

-- A new log holds no record and is valid, whatever capacity is asked for.
pub new_log-IsValid : (now : ℕ) (c : ℤ) → IsValid (new_log now c)
unfolding new_log
new_log-IsValid now c = record {
  cap_pos = room;
  next_in = room;
  size_le_cap = omega arith;
  size_le_total = omega arith;
  seqs = λ i p q. absurd (omega arith);
}
  where
    wanted : ℕ
    wanted = if is_pos c then pos_part c else default_capacity

    wanted_pos : (d : ℤ) → 0 < (if is_pos d then pos_part d else default_capacity)
    wanted_pos (ℤ.pos n) = ground arith
    wanted_pos (ℤ.negsuc n) = omega arith

    room : 0 < length (replicate (if is_pos c then pos_part c else default_capacity) zero_record)
    room = rw (length-replicate wanted zero_record) (wanted_pos c)

-- `Add` writes the slot at offset 1, and moves each older one by one.
pub slot-add_first :
    (now : ℕ) (r : Record) (l : Log) → IsValid l → slot (add now r l) 1 ≡ stamp now (l.total + 1) r
unfolding slot add
slot-add_first now r l v =
    let s = stamp now (l.total + 1) r in
    rw (length-set l.buf l.next s, ring_first (length l.buf) l.next v.next_in)
      (get_or-set_self l.buf l.next s zero_record v.next_in)

pub slot-add_older :
    (now : ℕ) (r : Record) (l : Log) (i : ℕ)
    → IsValid l
    → 0 < i
    → i < length l.buf
    → slot (add now r l) (suc i) ≡ slot l i
unfolding slot add
slot-add_older now r l i v p q =
    let s = stamp now (l.total + 1) r in
    let n = length l.buf in
    rw (length-set l.buf l.next s, ring_older n l.next i v.next_in p q)
      (get_or-set_ne l.buf l.next ((l.next + n - i) % n) s zero_record
        (ring_ne n l.next i v.next_in p q))

seqs-add :
    (now : ℕ) (r : Record) (l : Log) (i : ℕ)
    → IsValid l
    → 0 < i
    → i ≤ l.size + 1
    → i ≤ length l.buf
    → (slot (add now r l) i).seq + i ≡ l.total + 2
unfolding stamp
seqs-add now r l (suc zero) v p q b = rw (slot-add_first now r l v) (omega arith)
seqs-add now r l (suc (suc i)) v p q b =
    rw (slot-add_older now r l (suc i) v (omega arith) (omega arith))
      (omega (arith, v.seqs (suc i)))
seqs-add now r l zero v p q b = absurd (omega arith)

-- `Add` keeps the invariant.
pub add-IsValid : (now : ℕ) (r : Record) (l : Log) → IsValid l → IsValid (add now r l)
add-IsValid now r l v = record {
  cap_pos = unfold add in rw (length-set) v.cap_pos;
  next_in = unfold add in rw (length-set) (mod-lt (l.next + 1) v.cap_pos);
  size_le_cap = unfold add in rw (length-set) (ground (arith, v.size_le_cap));
  size_le_total = unfold add in ground (arith, v.size_le_total);
  seqs = λ i p q. unfold add in omega (arith, add_seq i p q);
}
  where
    add_seq :
        (i : ℕ) → 0 < i → i ≤ (add now r l).size → (slot (add now r l) i).seq + i ≡ l.total + 2
    add_seq i p q =
        unfold add in
        seqs-add now r l i v p (ground (arith, v.size_le_cap)) (ground (arith, v.size_le_cap))
