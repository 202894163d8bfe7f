-- ===== src/Update/Ops.antt =====
-- What `Update::into_ops` of update.rs hands over, after any operations.
use tarant.Base.{
  ℕ, ◌≡◌, refl, ◌∙◌, sym, ap, true, false, List, [], ◌∷◌, ◌++◌, map, append_assoc, append-nil, ok,
  err, panic, stuck,
}
use tarant.Error.{Error, Outcome}
use tarant.Update.{
  Update, empty, push, into_ops, FieldRef, Operand, set, add, sub, bit_and, bit_or, bit_xor, insert,
  delete, splice,
}
use tarant.Base.Int.{ℤ}

-- An operation on a field, as the caller asks for it.
pub data Change (V : Type 0) : Type 0 where
  sets adds subs inserts : FieldRef → V → Change V
  ands ors xors deletes : FieldRef → ℕ → Change V
  splices : FieldRef → (offset : ℤ) (len : ℕ) (replacement : List ℕ) → Change V

module _ {V : Type 0} (to_msgpack : (symbol : ℕ) → FieldRef → Operand V → Outcome (List ℕ)) where
  unfoldable pub change : Update → Change V → Update
  unfolding set add sub bit_and bit_or bit_xor insert delete splice
  change u (Change.sets f v) = set to_msgpack u f v
  change u (Change.adds f v) = add to_msgpack u f v
  change u (Change.subs f v) = sub to_msgpack u f v
  change u (Change.inserts f v) = insert to_msgpack u f v
  change u (Change.ands f m) = bit_and to_msgpack u f m
  change u (Change.ors f m) = bit_or to_msgpack u f m
  change u (Change.xors f m) = bit_xor to_msgpack u f m
  change u (Change.deletes f n) = delete to_msgpack u f n
  change u (Change.splices f o n t) = splice to_msgpack u f o n t

  unfoldable pub change_all : Update → List (Change V) → Update
  unfolding change
  change_all u [] = u
  change_all u (c ∷ cs) = change_all (change u c) cs

  -- The symbol of an operation in the protocol, and its operand.
  unfoldable pub encoded : Change V → Outcome (List ℕ)
  encoded (Change.sets f v) = to_msgpack 0x3d f (Operand.value v)
  encoded (Change.adds f v) = to_msgpack 0x2b f (Operand.value v)
  encoded (Change.subs f v) = to_msgpack 0x2d f (Operand.value v)
  encoded (Change.inserts f v) = to_msgpack 0x21 f (Operand.value v)
  encoded (Change.ands f m) = to_msgpack 0x26 f (Operand.mask m)
  encoded (Change.ors f m) = to_msgpack 0x7c f (Operand.mask m)
  encoded (Change.xors f m) = to_msgpack 0x5e f (Operand.mask m)
  encoded (Change.deletes f n) = to_msgpack 0x23 f (Operand.count n)
  encoded (Change.splices f o n t) = to_msgpack 0x3a f (Operand.cut o n t)

-- Encodings behind others, or a failure.
unfoldable pub behind : List (List ℕ) → Outcome (List (List ℕ)) → Outcome (List (List ℕ))
behind front (ok l) = ok (front ++ l)
behind front r = err Error.encode_failed

-- All of a list of encodings, or a failure.
unfoldable pub all_of : List (Outcome (List ℕ)) → Outcome (List (List ℕ))
unfolding behind
all_of [] = ok []
all_of (ok b ∷ rest) = behind (b ∷ []) (all_of rest)
all_of (x ∷ rest) = err Error.encode_failed

behind-behind :
    (front back : List (List ℕ)) (r : Outcome (List (List ℕ)))
    → behind front (behind back r) ≡ behind (front ++ back) r
unfolding behind
behind-behind front back (ok l) = ap ok (sym (append_assoc front back l))
behind-behind front back (err e) = refl
behind-behind front back panic = refl
behind-behind front back stuck = refl

behind-all_of : (l : List (Outcome (List ℕ))) → behind [] (all_of l) ≡ all_of l
unfolding all_of
behind-all_of [] = unfold behind in refl
behind-all_of (ok b ∷ rest) = behind-behind [] (b ∷ []) (all_of rest)
behind-all_of (err e ∷ rest) = unfold behind in refl
behind-all_of (panic ∷ rest) = unfold behind in refl
behind-all_of (stuck ∷ rest) = unfold behind in refl

module _ {V : Type 0} (to_msgpack : (symbol : ℕ) → FieldRef → Operand V → Outcome (List ℕ)) where
  change-push : (u : Update) (c : Change V) → change to_msgpack u c ≡ push u (encoded to_msgpack c)
  unfolding change encoded set add sub bit_and bit_or bit_xor insert delete splice
  change-push u (Change.sets f v) = refl
  change-push u (Change.adds f v) = refl
  change-push u (Change.subs f v) = refl
  change-push u (Change.inserts f v) = refl
  change-push u (Change.ands f m) = refl
  change-push u (Change.ors f m) = refl
  change-push u (Change.xors f m) = refl
  change-push u (Change.deletes f n) = refl
  change-push u (Change.splices f o n t) = refl

  error-push : (u : Update) (r : Outcome (List ℕ)) → u.error ≡ true → (push u r).error ≡ true
  unfolding push
  error-push u (ok b) h = h
  error-push u (err e) h = refl
  error-push u panic h = refl
  error-push u stuck h = refl

  into_ops-failed :
      (cs : List (Change V)) (u : Update)
      → u.error ≡ true
      → into_ops (change_all to_msgpack u cs) ≡ err Error.encode_failed
  unfolding into_ops change_all
  into_ops-failed [] u h = rw h refl
  into_ops-failed (c ∷ cs) u h =
      into_ops-failed cs (change to_msgpack u c)
        (rw (change-push u c) (error-push u (encoded to_msgpack c) h))

  pushed-behind :
      (cs : List (Change V)) (rest : List (Outcome (List ℕ)))
      → ((u : Update)
          → u.error ≡ false
          → into_ops (change_all to_msgpack u cs) ≡ behind u.ops (all_of rest))
      → (u : Update) → u.error ≡ false
      → (r : Outcome (List ℕ))
      → into_ops (change_all to_msgpack (push u r) cs) ≡ behind u.ops (all_of (r ∷ rest))
  unfolding push all_of behind
  pushed-behind cs rest ih u h (ok b) =
      ih (record u { ops = u.ops ++ (b ∷ []) }) h ∙ sym (behind-behind u.ops (b ∷ []) (all_of rest))
  pushed-behind cs rest ih u h (err e) = into_ops-failed cs (record u { error = true }) refl
  pushed-behind cs rest ih u h panic = into_ops-failed cs (record u { error = true }) refl
  pushed-behind cs rest ih u h stuck = into_ops-failed cs (record u { error = true }) refl

  into_ops-behind :
      (cs : List (Change V)) (u : Update)
      → u.error ≡ false
      → into_ops (change_all to_msgpack u cs) ≡ behind u.ops (all_of (map (encoded to_msgpack) cs))
  unfolding into_ops change_all all_of behind
  into_ops-behind [] u h = rw (h, append-nil u.ops) refl
  into_ops-behind (c ∷ cs) u h =
      ap (λ v. into_ops (change_all to_msgpack v cs)) (change-push u c)
      ∙ pushed-behind cs (map (encoded to_msgpack) cs) (into_ops-behind cs) u h
          (encoded to_msgpack c)

  -- However operations are added to a new list, in whatever order and number: the list gives the
  -- encodings of all of them, in order and each with its symbol in the protocol, if all can be
  -- encoded, and fails otherwise.
  pub into_ops-change_all :
      (cs : List (Change V))
      → into_ops (change_all to_msgpack empty cs) ≡ all_of (map (encoded to_msgpack) cs)
  unfolding empty
  into_ops-change_all cs =
      into_ops-behind cs empty refl ∙ behind-all_of (map (encoded to_msgpack) cs)
