-- ===== src/Rendezvous/Commits.antt =====
-- The task as a log of committed stacks, the abstract view of what it does to the connections.
use tbm.Prelude.{
  ℕ, zero, suc, ◌≡◌, refl, ◌∙◌, sym, true, List, [], ◌∷◌, map, Memᴰ, Option, All, ◌⊎◌, inl, inr,
  Bool-cases, if◌then◌else◌, subst,
}
use tbm.Negotiate.Types.{StackNonce, Side}
use tbm.Rendezvous.Backend.{RendezvousEntry, Backend}
use tbm.Rendezvous.Handles.{UpgradeHandle, nonce_eq, check_compatibility, switch_to_stack, any}
use tbm.Rendezvous.Monitor.{StackUpgradeHandle, switch_compatible}
use tbm.Rendezvous.Loop.{LoopEvent, set_current, monitor_connection_negotiation_state}
use tbm.Rendezvous.Preserved.{IsCommittable, Stable, monitor-stable}

-- Equal as maps, or the same list.
abbrev pub SameNonce : StackNonce → StackNonce → Type 0
SameNonce x y = (nonce_eq x y ≡ true) ⊎ (x ≡ y)

-- The newest stack of a log that a handle can switch to, or what it has been told before.
abbrev pub latest : UpgradeHandle → List RendezvousEntry → StackNonce
latest uh [] = uh.triggered
latest uh (entry ∷ log) =
    let before = latest uh log in if check_compatibility uh entry then entry else before

abbrev pub newest : RendezvousEntry → List RendezvousEntry → RendezvousEntry
newest entry [] = entry
newest entry (committed ∷ log) = committed

-- A handle that had been `before` has followed a log.
pub record HasFollowed (log : List RendezvousEntry) (before after : UpgradeHandle) : Type 0 where
  pub same_left : after.left_offers ≡ before.left_offers
  pub same_right : after.right_offers ≡ before.right_offers
  pub told : SameNonce after.triggered (latest before log)

abbrev pub AllFollowed : List RendezvousEntry → List UpgradeHandle → List UpgradeHandle → Type 0
AllFollowed log [] [] = Unit
AllFollowed log (x ∷ xs) (y ∷ ys) = HasFollowed log x y × AllFollowed log xs ys
AllFollowed log _ _ = ⊥

-- The task `after` is the task `before` with a log of stacks committed to, newest first.
pub record Refines (log : List RendezvousEntry) (before after : StackUpgradeHandle) : Type 0 where
  pub own : after.offers ≡ before.offers
  pub entry : after.curr_entry ≡ newest before.curr_entry log
  pub handles : AllFollowed log before.upgrade_handles after.upgrade_handles
  pub committable : All (λ entry'. IsCommittable entry' before) log

same_compatibility :
    (log : List RendezvousEntry) (entry : StackNonce) (x y : UpgradeHandle)
    → HasFollowed log x y
    → check_compatibility y entry ≡ check_compatibility x entry
unfolding check_compatibility
same_compatibility log entry x y f = rw (f.same_left, f.same_right) refl

all_compatible :
    (log : List RendezvousEntry) (entry : StackNonce) (xs ys : List UpgradeHandle)
    → AllFollowed log xs ys
    → any (λ uh. check_compatibility uh entry) ys ≡ any (λ uh. check_compatibility uh entry) xs
all_compatible log entry [] [] f = refl
all_compatible log entry [] (y ∷ ys) f = elim f [ ]
all_compatible log entry (x ∷ xs) [] f = elim f [ ]
all_compatible log entry (x ∷ xs) (y ∷ ys) f =
    rw (same_compatibility log entry x y f.0, all_compatible log entry xs ys f.1) refl

switch-HasFollowed :
    (log : List RendezvousEntry) (entry : StackNonce) (x y : UpgradeHandle)
    → HasFollowed log x y
    → HasFollowed (entry ∷ log) x (switch_compatible entry y)
unfolding switch_to_stack
switch-HasFollowed log entry x y f =
    let same = same_compatibility log entry x y f in
    elim (Bool-cases (check_compatibility x entry)) [
      | inl fits ↦
          rw (same, fits)
            (elim (Bool-cases (nonce_eq y.triggered entry)) [
              | inl known ↦ rw known (record {
                same_left = f.same_left;
                same_right = f.same_right;
                told = rw fits (inl known);
              })
              | inr new ↦ rw new (record {
                same_left = f.same_left;
                same_right = f.same_right;
                told = rw fits (inr refl);
              })
            ])
      | inr other ↦
          rw (same, other)
            (record { same_left = f.same_left; same_right = f.same_right; told = rw other f.told })
    ]

AllFollowed-switch :
    (log : List RendezvousEntry) (entry : StackNonce) (xs ys : List UpgradeHandle)
    → AllFollowed log xs ys
    → AllFollowed (entry ∷ log) xs (map (switch_compatible entry) ys)
AllFollowed-switch log entry [] [] f = tt
AllFollowed-switch log entry [] (y ∷ ys) f = elim f [ ]
AllFollowed-switch log entry (x ∷ xs) [] f = elim f [ ]
AllFollowed-switch log entry (x ∷ xs) (y ∷ ys) f =
    (switch-HasFollowed log entry x y f.0, AllFollowed-switch log entry xs ys f.1)

AllFollowed-set_current :
    (log : List RendezvousEntry) (idx : ℕ) (side : Option Side) (xs ys : List UpgradeHandle)
    → AllFollowed log xs ys
    → AllFollowed log xs (set_current idx side ys)
AllFollowed-set_current log idx side [] [] f = tt
AllFollowed-set_current log idx side [] (y ∷ ys) f = elim f [ ]
AllFollowed-set_current log zero side (x ∷ xs) [] f = elim f [ ]
AllFollowed-set_current log (suc idx) side (x ∷ xs) [] f = elim f [ ]
AllFollowed-set_current log zero side (x ∷ xs) (y ∷ ys) f =
    (record { same_left = f.0.same_left; same_right = f.0.same_right; told = f.0.told }, f.1)
AllFollowed-set_current log (suc idx) side (x ∷ xs) (y ∷ ys) f =
    (f.0, AllFollowed-set_current log idx side xs ys f.1)

AllFollowed-refl : (xs : List UpgradeHandle) → AllFollowed [] xs xs
AllFollowed-refl [] = tt
AllFollowed-refl (x ∷ xs) =
    (record { same_left = refl; same_right = refl; told = inr refl }, AllFollowed-refl xs)

committed :
    (log : List RendezvousEntry) (before after : StackUpgradeHandle) (entry : RendezvousEntry)
    → Refines log before after
    → IsCommittable entry after
    → IsCommittable entry before
committed log before after entry r (inl m) = inl (subst (λ offers. Memᴰ entry offers) r.own m)
committed log before after entry r (inr c) =
    inr (sym (all_compatible log entry before.upgrade_handles after.upgrade_handles r.handles) ∙ c)

abbrev HasLog : StackUpgradeHandle → StackUpgradeHandle → Type 0
HasLog before after = (log : List RendezvousEntry) × Refines log before after

HasLog-stable : (before : StackUpgradeHandle) → Stable (HasLog before)
HasLog-stable before = record {
  counts = λ h num round (log, r). (log, kept log h _ refl refl refl r);
  notes = λ h num (log, r). (log, kept log h _ refl refl refl r);
  commits = λ h entry round c (log, r). (
    entry ∷ log,
    record {
      own = r.own;
      entry = refl;
      handles = AllFollowed-switch log entry before.upgrade_handles h.upgrade_handles r.handles;
      committable = (committed log before h entry r c, r.committable);
    },
  );
  moves = λ h idx side (log, r). (
    log,
    record {
      own = r.own;
      entry = r.entry;
      handles =
          AllFollowed-set_current log idx side before.upgrade_handles h.upgrade_handles r.handles;
      committable = r.committable;
    },
  );
}
  where
    kept :
        (log : List RendezvousEntry) (h h' : StackUpgradeHandle)
        → h'.offers ≡ h.offers
        → h'.curr_entry ≡ h.curr_entry
        → h'.upgrade_handles ≡ h.upgrade_handles
        → Refines log before h
        → Refines log before h'
    kept log h h' o e u r = record {
      own = o ∙ r.own;
      entry = e ∙ r.entry;
      handles = subst (AllFollowed log before.upgrade_handles) (sym u) r.handles;
      committable = r.committable;
    }

-- Whatever happens, the task has committed to a list of stacks: its entry is the newest of them, each
-- handle has been told the newest one that it can switch to, and each of them is one of the own
-- stacks or compatible with some handle.
pub monitor-Refines :
    {S : Type 0} (b : Backend S) (events : List (LoopEvent S)) (h : StackUpgradeHandle) (s : S)
    → (log : List RendezvousEntry) × Refines log h
        (monitor_connection_negotiation_state b events h s).monitor
monitor-Refines b events h s = monitor-stable (HasLog-stable h) b events h s (
  [],
  record {
    own = refl;
    entry = refl;
    handles = AllFollowed-refl h.upgrade_handles;
    committable = tt;
  },
)
