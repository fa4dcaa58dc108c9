-- ===== src/Rendezvous/Notices.antt =====
-- The default `notify`: when it returns.
use tbm.Prelude.{
  ℕ, ==_iff, ==_self, ◌≡◌, refl, ap, ◌∙◌, true, List, [], ◌∷◌, ◌++◌, ok, err, Outcome, returns,
  panics, inl, inr, Bool-cases,
}
use tbm.Rendezvous.Backend.{
  RendezvousEntry, RendezvousResult, matched, no_match, Backend, returned, unchanged, poll_again,
  first_poll, notify,
}

-- A poll that finds the entry in place, with the same number of participants.
abbrev pub Same : ℕ → Outcome RendezvousResult → Type 0
Same conn_ctr r = (n : ℕ) × (r ≡ returns (ok (matched conn_ctr n)))

unchanged-Same :
    (conn_ctr : ℕ) (r : Outcome RendezvousResult) → unchanged conn_ctr r ≡ true → Same conn_ctr r
unchanged-Same conn_ctr panics e = absurd (cc e)
unchanged-Same conn_ctr (returns (err report)) e = absurd (cc e)
unchanged-Same conn_ctr (returns (ok (no_match entry num n))) e = absurd (cc e)
unchanged-Same conn_ctr (returns (ok (matched num n))) e =
    (n, ap (λ k. returns (ok (matched k n))) ((==_iff num conn_ctr).0 e))

pub Same-unchanged :
    (conn_ctr : ℕ) (r : Outcome RendezvousResult) → Same conn_ctr r → unchanged conn_ctr r ≡ true
Same-unchanged conn_ctr r (n, e) = ap (unchanged conn_ctr) e ∙ ==_self conn_ctr

module _ {S : Type 0} (b : Backend S) (entry : RendezvousEntry) (round : ℕ) where
  poll_again_returns :
      (conn_ctr : ℕ) (earlier later : List (S → S)) (others : S → S) (s : S)
      → ((s' : S) → ¬ Same conn_ctr (b.poll_entry entry round (others s')).0)
      → (r : Outcome RendezvousResult) × (s' : S) × (poll_again b entry round conn_ctr
            (earlier ++ others ∷ later)
            s
          ≡ returned r s')
        × (¬ Same conn_ctr r)
  unfolding poll_again
  poll_again_returns conn_ctr [] later others s noticed =
      let polled = b.poll_entry entry round (others s) in
      elim (Bool-cases (unchanged conn_ctr polled.0)) [
        | inl same ↦ absurd (noticed s (unchanged-Same conn_ctr polled.0 same))
        | inr new ↦ (polled.0, polled.1, rw new refl, noticed s)
      ]
  poll_again_returns conn_ctr (o ∷ earlier) later others s noticed =
      let polled = b.poll_entry entry round (o s) in
      elim (Bool-cases (unchanged conn_ctr polled.0)) [
        | inl same ↦
            let (r, s', e, new) =
              poll_again_returns conn_ctr earlier later others polled.1 noticed in
            (r, s', rw same e, new)
        | inr new ↦ (
          polled.0,
          polled.1,
          rw new refl,
          λ same. cc (Same-unchanged conn_ctr polled.0 same, new),
        )
      ]

  -- Where the first poll finds the entry in place in the current round, with `conn_ctr` participants:
  -- if after some sleep a poll does not find the entry in place with `conn_ctr` participants, whatever
  -- it finds, `notify` returns then, if not before, and does not return that the entry is in place with
  -- `conn_ctr` participants.
  pub notify_returns :
      (conn_ctr : ℕ) (earlier later : List (S → S)) (others : S → S) (s s₁ : S)
      → b.poll_entry entry round s ≡ (returns (ok (matched conn_ctr round)), s₁)
      → ((s' : S) → ¬ Same conn_ctr (b.poll_entry entry round (others s')).0)
      → (r : Outcome RendezvousResult) × (s' : S) × (notify b entry round
            (earlier ++ others ∷ later)
            s
          ≡ returned r s')
        × (¬ Same conn_ctr r)
  unfolding notify
  notify_returns conn_ctr earlier later others s s₁ first noticed =
      let (r, s', e, new) = poll_again_returns conn_ctr earlier later others s₁ noticed in
      (
        r,
        s',
        ap (first_poll b entry round (earlier ++ others ∷ later)) first ∙ rw (==_self round) e,
        new,
      )
