-- ===== src/Client/Order.antt =====
-- The syncs of the requests that a handle puts into the channel.
use tarant.Base.{
  ℕ, ◌+◌, ◌^◌, ◌≤◌, ◌<◌, ◌≡◌, Bool, true, false, if◌then◌else◌, Option, none, List, [], ◌∷◌, ◌++◌,
  ok, err, panic, stuck, arith, All, Bool-cases, inl, inr,
}
use tarant.Error.{Outcome}
use tarant.Connection.{Command}
use tarant.Iproto.Code.{Feature}
use tarant.Client.{
  Handle, M, proceed, bump, ◌>>=◌, lift, return, Outside, Fate, shut, no_task, expired, dropped,
  refused, answered, draw_sync, supports, request, request_inner, meet, begin_pushes, submit, fire,
}

-- What a relation says of the sync of a request.
abbrev pub OnSync : (ℕ → Type 0) → Command → Type 0
OnSync P (Command.request sync packet reply pushes) = P sync
OnSync P c = Unit

abbrev pub AllSyncs : (ℕ → Type 0) → List Command → Type 0
AllSyncs P = All (OnSync P)

-- Every request has a smaller sync than those behind it.
abbrev pub Increasing : List Command → Type 0
Increasing [] = Unit
Increasing (c ∷ cs) = OnSync (λ s. AllSyncs (λ t. s < t) cs) c × Increasing cs

-- What a handle keeps: the syncs that it used rise, and the next is above them.
pub record IsOrdered (h : Handle) : Type 0 where
  pub below : AllSyncs (λ s. s < h.next_sync) h.outbox
  pub rising : Increasing h.outbox

OnSync-map : (P Q : ℕ → Type 0) (c : Command) → ((s : ℕ) → P s → Q s) → OnSync P c → OnSync Q c
OnSync-map P Q (Command.request s p r q) f h = f s h
OnSync-map P Q (Command.watch i k s) f h = tt
OnSync-map P Q (Command.unwatch i k) f h = tt
OnSync-map P Q (Command.fire p) f h = tt
OnSync-map P Q Command.close f h = tt

-- From two facts of each sync to a third.
OnSync-both :
    (P Q R : ℕ → Type 0) (c : Command)
    → ((s : ℕ) → P s → Q s → R s)
    → OnSync P c
    → OnSync Q c
    → OnSync R c
OnSync-both P Q R (Command.request s p r q) f h k = f s h k
OnSync-both P Q R (Command.watch i k s) f h j = tt
OnSync-both P Q R (Command.unwatch i k) f h j = tt
OnSync-both P Q R (Command.fire p) f h j = tt
OnSync-both P Q R Command.close f h j = tt

pub AllSyncs-both :
    (P Q R : ℕ → Type 0) (cs : List Command)
    → ((s : ℕ) → P s → Q s → R s)
    → AllSyncs P cs
    → AllSyncs Q cs
    → AllSyncs R cs
AllSyncs-both P Q R [] f h k = tt
AllSyncs-both P Q R (c ∷ cs) f h k =
    (OnSync-both P Q R c f h.0 k.0, AllSyncs-both P Q R cs f h.1 k.1)

AllSyncs-weaken :
    (a b : ℕ) (cs : List Command) → a ≤ b → AllSyncs (λ s. s < a) cs → AllSyncs (λ s. s < b) cs
AllSyncs-weaken a b cs le h =
    AllSyncs-both (λ s. s < a) (λ s. s < a) (λ s. s < b) cs (λ s l m. omega arith) h h

AllSyncs-append :
    (P : ℕ → Type 0) (cs : List Command) (c : Command)
    → AllSyncs P cs
    → OnSync P c
    → AllSyncs P (cs ++ (c ∷ []))
AllSyncs-append P [] c w h = (h, tt)
AllSyncs-append P (d ∷ cs) c w h = (w.0, AllSyncs-append P cs c w.1 h)

-- A command that goes behind others, as it has no sync or a larger one.
Increasing-append :
    (n : ℕ) (cs : List Command) (c : Command)
    → AllSyncs (λ s. s < n) cs
    → Increasing cs
    → OnSync (λ s. n ≤ s) c
    → Increasing (cs ++ (c ∷ []))
Increasing-append n [] c b w h = (OnSync-map (λ s. n ≤ s) (λ s. Unit) c (λ s l. tt) h, tt)
Increasing-append n (Command.request s p r q ∷ cs) c b w h = (
  AllSyncs-append (λ t. s < t) cs c w.0
      (OnSync-map (λ t. n ≤ t) (λ t. s < t) c (λ t l. omega arith) h),
  Increasing-append n cs c b.1 w.1 h,
)
Increasing-append n (Command.watch i k s ∷ cs) c b w h = (tt, Increasing-append n cs c b.1 w.1 h)
Increasing-append n (Command.unwatch i k ∷ cs) c b w h = (tt, Increasing-append n cs c b.1 w.1 h)
Increasing-append n (Command.fire p ∷ cs) c b w h = (tt, Increasing-append n cs c b.1 w.1 h)
Increasing-append n (Command.close ∷ cs) c b w h = (tt, Increasing-append n cs c b.1 w.1 h)

-- From one handle to the next with at most `k` syncs drawn, the order kept.
pub record Step (k : ℕ) (h h' : Handle) : Type 0 where
  pub order : IsOrdered h → IsOrdered h'
  pub grows : h.next_sync ≤ h'.next_sync
  pub bound : h'.next_sync ≤ h.next_sync + k

-- An action that draws at most `k` syncs, while the counter does not wrap.
abbrev pub Draws : {A : Type 0} → ℕ → M A → Type 0
Draws k m = (h : Handle) → h.next_sync + k < 2 ^ 64 → Step k h (m h).1

pub Step-same : (k : ℕ) (h : Handle) → Step k h h
Step-same k h = record { order = λ o. o; grows = omega arith; bound = omega arith }

pub Step-trans : (j k : ℕ) (h h' h'' : Handle) → Step j h h' → Step k h' h'' → Step (j + k) h h''
Step-trans j k h h' h'' s t = record {
  order = λ o. t.order (s.order o);
  grows = omega (arith, s.grows, t.grows);
  bound = omega (arith, s.bound, t.bound);
}

pub Step-weaken : (j k : ℕ) (h h' : Handle) → j ≤ k → Step j h h' → Step k h h'
Step-weaken j k h h' le s = record {
  order = s.order;
  grows = s.grows;
  bound = omega (arith, s.bound);
}

-- A command without a sync.
abbrev pub HasNone : Command → Type 0
HasNone = OnSync (λ s. ⊥)

pub Step-silent :
    (h : Handle) (c : Command) → HasNone c → Step 0 h (record h { outbox = h.outbox ++ (c ∷ []) })
Step-silent h c none_there = record {
  order = λ o. record {
    below =
        AllSyncs-append (λ s. s < h.next_sync) h.outbox c o.below
          (OnSync-map (λ s. ⊥) _ c (λ s f. absurd f) none_there);
    rising =
        Increasing-append h.next_sync h.outbox c o.below o.rising
          (OnSync-map (λ s. ⊥) _ c (λ s f. absurd f) none_there);
  };
  grows = omega arith;
  bound = omega arith;
}

-- Drawing a sync, with and without a request that carries it.
pub Step-draw :
    (h : Handle) → h.next_sync + 1 < 2 ^ 64 → Step 1 h (record h { next_sync = bump h.next_sync })
Step-draw h small =
    let next : bump h.next_sync ≡ h.next_sync + 1 = omega arith in
    record {
      order = λ o. record {
        below =
            rw next (AllSyncs-weaken h.next_sync (h.next_sync + 1) h.outbox (omega arith) o.below);
        rising = o.rising;
      };
      grows = omega (arith, next);
      bound = omega (arith, next);
    }

pub Step-request :
    (h : Handle) (packet : List ℕ) (pushes : Option ℕ)
    → h.next_sync + 1 < 2 ^ 64
    → Step 1 h (record h {
      next_sync = bump h.next_sync;
      outbox = h.outbox ++ (Command.request h.next_sync packet h.next_sync pushes ∷ []);
    })
Step-request h packet pushes small =
    let next : bump h.next_sync ≡ h.next_sync + 1 = omega arith in
    record {
      order = λ o. record {
        below = rw next (
            AllSyncs-append (λ s. s < h.next_sync + 1) h.outbox
              (Command.request h.next_sync packet h.next_sync pushes)
              (AllSyncs-weaken h.next_sync (h.next_sync + 1) h.outbox (omega arith) o.below)
              (omega arith));
        rising =
            Increasing-append h.next_sync h.outbox
              (Command.request h.next_sync packet h.next_sync pushes) o.below o.rising
              (omega arith);
      };
      grows = omega (arith, next);
      bound = omega (arith, next);
    }

pub Draws-lift : {A : Type 0} (r : Outcome A) → Draws 0 (lift r)
Draws-lift r h small = Step-same 0 h

pub Draws-return : {A : Type 0} (a : A) → Draws 0 (return a)
Draws-return a h small = Step-same 0 h

pub proceed-Step :
    {A B : Type 0} (k : ℕ) (r : Outcome A) (f : A → M B) (h : Handle)
    → h.next_sync + k < 2 ^ 64
    → ((a : A) → Draws k (f a))
    → Step k h (proceed r f h).1
proceed-Step k (ok a) f h small d = d a h small
proceed-Step k (err e) f h small d = Step-same k h
proceed-Step k panic f h small d = Step-same k h
proceed-Step k stuck f h small d = Step-same k h

-- From one handle: the first action may be known there only.
pub bind-Step :
    {A B : Type 0} (j k : ℕ) (m : M A) (f : A → M B) (h : Handle)
    → h.next_sync + (j + k) < 2 ^ 64
    → Step j h (m h).1
    → ((a : A) → Draws k (f a))
    → Step (j + k) h ((m >>= f) h).1
bind-Step j k m f h small first e =
    Step-trans j k h (m h).1 _ first
      (proceed-Step k (m h).0 f (m h).1 (omega (arith, first.bound)) e)

pub Draws-bind :
    {A B : Type 0} (j k : ℕ) (m : M A) (f : A → M B)
    → Draws j m
    → ((a : A) → Draws k (f a))
    → Draws (j + k) (m >>= f)
Draws-bind j k m f d e h small = bind-Step j k m f h small (d h (omega arith)) e

pub Draws-if :
    {A : Type 0} (k : ℕ) (b : Bool) (m n : M A)
    → Draws k m
    → Draws k n
    → Draws k (if b then m else n)
Draws-if k true m n d e = d
Draws-if k false m n d e = e

pub Step-if :
    {R : Type 0} (k : ℕ) (b : Bool) (h : Handle) (p q : R × Handle)
    → Step k h p.1
    → Step k h q.1
    → Step k h (if b then p else q).1
Step-if k true h p q s t = s
Step-if k false h p q s t = t

pub Draws-supports : (f : Feature) → Draws 0 (supports f)
unfolding supports
Draws-supports f h small = Step-same 0 h

-- The handle after a sync is drawn and before a request carries it.
abbrev pub drawn : Handle → Handle
drawn h = record h { next_sync = bump h.next_sync }

meet-Step :
    {V : Type 0} (f : Fate V) (h : Handle) (packet : List ℕ) (pushes : Option ℕ)
    → h.next_sync + 1 < 2 ^ 64
    → Step 1 h (meet f (Command.request h.next_sync packet h.next_sync pushes) (drawn h)).1
unfolding meet
meet-Step shut h packet pushes small = Step-draw h small
meet-Step no_task h packet pushes small = Step-draw h small
meet-Step expired h packet pushes small = Step-request h packet pushes small
meet-Step dropped h packet pushes small = Step-request h packet pushes small
meet-Step (refused e) h packet pushes small = Step-request h packet pushes small
meet-Step (answered r) h packet pushes small = Step-request h packet pushes small

pub begin_pushes-Step :
    {V : Type 0} (f : Fate V) (h : Handle) (packet : List ℕ) (pushes : Option ℕ)
    → h.next_sync + 1 < 2 ^ 64
    → Step 1 h (begin_pushes f (Command.request h.next_sync packet h.next_sync pushes) (drawn h)).1
unfolding begin_pushes
begin_pushes-Step shut h packet pushes small = Step-draw h small
begin_pushes-Step no_task h packet pushes small = Step-draw h small
begin_pushes-Step expired h packet pushes small = Step-request h packet pushes small
begin_pushes-Step dropped h packet pushes small = Step-request h packet pushes small
begin_pushes-Step (refused e) h packet pushes small = Step-request h packet pushes small
begin_pushes-Step (answered r) h packet pushes small = Step-request h packet pushes small

module _ (w : Outside) where
  built-Step :
      (r : Outcome (List ℕ)) (h : Handle)
      → h.next_sync + 1 < 2 ^ 64
      → Step 1 h (proceed r (λ packet. request w h.next_sync packet) (drawn h)).1
  unfolding request request_inner
  built-Step (ok packet) h small = meet-Step (w.fate h.next_sync) h packet none small
  built-Step (err e) h small = Step-draw h small
  built-Step panic h small = Step-draw h small
  built-Step stuck h small = Step-draw h small

  pub submit-Draws : (build : ℕ → Outcome (List ℕ)) → Draws 1 (submit w build)
  unfolding submit
  submit-Draws build h small = built-Step (build h.next_sync) h small

  pub fire-Draws : (packet : List ℕ) → Draws 0 (fire w packet)
  unfolding fire
  fire-Draws packet h small = elim (Bool-cases (w.room h)) [
    | inl e ↦ rw e (Step-silent h (Command.fire packet) tt)
    | inr e ↦ rw e (Step-same 0 h)
  ]

  -- A command that nobody waits for, under a sync drawn for it.
  pub notice-Draws : (packet : ℕ → List ℕ) → Draws 1 (draw_sync >>= λ sync. fire w (packet sync))
  unfolding draw_sync
  notice-Draws packet h small =
      Step-trans 1 0 h (drawn h) _ (Step-draw h small)
        (fire-Draws (packet h.next_sync) (drawn h) (omega arith))
