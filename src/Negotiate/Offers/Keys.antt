-- ===== src/Negotiate/Offers/Keys.antt =====
-- The nonces that a stack offers: no capability stands twice in one, and a capability is two-sided in
-- them if it is two-sided in the stack.
use tbm.Prelude.{
  ℕ, ◌==◌, ◌≡◌, refl, sym, ap, ◌∙◌, List, [], ◌∷◌, map, Memᴰ, Option, none, some, get, insert,
  Unique, insert-Unique, update-Unique, get-insert, get-update, write-some, get_of_mem, mem-map,
  mem-append-cases, inl, inr, Bool-cases, ==_iff, subst, arith, some-injective, Bytes,
}
use tbm.Negotiate.Types.{
  Negotiate, Offer, StackNonce, Stack, chunnel, absent, present, cx_list, select,
}
use tbm.Negotiate.Offers.{get_offer, chunnel_nonce, merge, merge_entry, merge_all, offers, absorb}

merge_entry-Unique :
    (g : ℕ) (o : Offer) (ent : Option Offer) (r : StackNonce)
    → Unique r
    → Unique (merge_entry g o ent r)
merge_entry-Unique g o none r u = insert-Unique g o r u
merge_entry-Unique g o (some ent) r u = update-Unique g (absorb o) r u

merge-Unique : (l r : StackNonce) → Unique r → Unique (merge l r)
unfolding merge
merge-Unique [] r u = u
merge-Unique ((g, o) ∷ l) r u = merge-Unique l _ (merge_entry-Unique g o (get g r) r u)

-- A property that merging keeps holds of all that a list offers.
merge_all-mem :
    (P : StackNonce → Type 0) (hs ts : List StackNonce) (s : StackNonce)
    → ((h t : StackNonce) → Memᴰ h hs → P t → P (merge h t))
    → ((t : StackNonce) → Memᴰ t ts → P t)
    → Memᴰ s (merge_all hs ts)
    → P s
unfolding merge_all
merge_all-mem P hs [] s step base m = elim m [ ]
merge_all-mem P hs (t ∷ ts) s step base m =
    elim (mem-append-cases s (map (λ h. merge h t) hs) (merge_all hs ts) m) [
      | inl n ↦
          let (h, there, e) = mem-map (λ h. merge h t) s hs n in
          subst P (sym e) (step h t there (base t (Memᴰ.head refl)))
      | inr n ↦ merge_all-mem P hs ts s step (λ t n. base t (Memᴰ.tail n)) n
    ]

one-mem : (s t : StackNonce) → Memᴰ s (t ∷ []) → s ≡ t
one-mem s t (Memᴰ.head e) = e
one-mem s t (Memᴰ.tail m) = elim m [ ]

chunnel_nonce-Unique : (o : Option Offer) (n : Negotiate) → Unique (chunnel_nonce o n)
chunnel_nonce-Unique none n = tt
chunnel_nonce-Unique (some o) n = (refl, tt)

pub offers-Unique : (t : Stack) (s : StackNonce) → Memᴰ s (offers t) → Unique s
unfolding offers
offers-Unique (chunnel n) s m =
    subst Unique (sym (one-mem s _ m)) (chunnel_nonce-Unique (get_offer n) n)
offers-Unique absent s m = elim m [ ]
offers-Unique (present t) s m = offers-Unique t s m
offers-Unique (cx_list h t) s m =
    merge_all-mem Unique (offers h) (offers t) s (λ a b _ u. merge-Unique a b u) (offers-Unique t) m
offers-Unique (select l r p) s m = elim (mem-append-cases s (offers l) (offers r) m) [
  | inl n ↦ offers-Unique l s n
  | inr n ↦ offers-Unique r s n
]

-- Every implementation of the capability `g` in the stack declares it with sidedness `m`.
abbrev pub HasSidedness : ℕ → Option (List Bytes) → Stack → Type 0
HasSidedness g m (chunnel n) = n.capability.guid ≡ g → n.capability.universe ≡ m
HasSidedness g m absent = Unit
HasSidedness g m (present s) = HasSidedness g m s
HasSidedness g m (cx_list h t) = HasSidedness g m h × HasSidedness g m t
HasSidedness g m (select l r p) = HasSidedness g m l × HasSidedness g m r

-- The nonce's entry for `g`, if there is one, has sidedness `m`.
abbrev pub EntrySidedness : ℕ → Option (List Bytes) → StackNonce → Type 0
EntrySidedness g m s = (o : Offer) → get g s ≡ some o → o.sidedness ≡ m

merge_entry-Sidedness :
    (g k : ℕ) (m : Option (List Bytes)) (o : Offer) (ent : Option Offer) (r : StackNonce)
    → (k ≡ g → o.sidedness ≡ m)
    → get k r ≡ ent
    → EntrySidedness g m r
    → EntrySidedness g m (merge_entry k o ent r)
merge_entry-Sidedness g k m o none r ho e h v f = elim (Bool-cases (k == g)) [
  | inl q ↦
      let at_g : get g (insert k o r) ≡ some o = get-insert g k o r ∙ rw q in
      ap (λ (x : Offer). x.sidedness) (some-injective (sym f ∙ at_g)) ∙ ho ((==_iff k g).0 q)
  | inr q ↦ h v (sym (get-insert g k o r ∙ rw q) ∙ f)
]
merge_entry-Sidedness g k m o (some ent) r ho e h v f = elim (Bool-cases (k == g)) [
  | inl q ↦
      let (w, at_g, e) =
        write-some (absorb o) (get g r) v (sym (get-update g k (absorb o) r ∙ rw q) ∙ f) in
      ap (λ (x : Offer). x.sidedness) e ∙ h w at_g
  | inr q ↦ h v (sym (get-update g k (absorb o) r ∙ rw q) ∙ f)
]

merge-Sidedness :
    (g : ℕ) (m : Option (List Bytes)) (l r : StackNonce)
    → ((o : Offer) → Memᴰ (g, o) l → o.sidedness ≡ m)
    → EntrySidedness g m r
    → EntrySidedness g m (merge l r)
unfolding merge
merge-Sidedness g m [] r hl hr = hr
merge-Sidedness g m ((k, o) ∷ l) r hl hr =
    merge-Sidedness g m l _ (λ o' n. hl o' (Memᴰ.tail n))
      (merge_entry-Sidedness g k m o (get k r) r (λ e. hl o (Memᴰ.head (ap (λ j. (j, o)) (sym e))))
        refl hr)

chunnel-Sidedness :
    (g : ℕ) (m : Option (List Bytes)) (n : Negotiate)
    → (n.capability.guid ≡ g → n.capability.universe ≡ m)
    → EntrySidedness g m (chunnel_nonce (get_offer n) n)
unfolding get_offer
chunnel-Sidedness g m n h o f = ground arith

pub offers-Sidedness :
    (g : ℕ) (m : Option (List Bytes)) (t : Stack)
    → HasSidedness g m t
    → (s : StackNonce) → Memᴰ s (offers t)
    → EntrySidedness g m s
unfolding offers
offers-Sidedness g m (chunnel n) h s i =
    subst (EntrySidedness g m) (sym (one-mem s _ i)) (chunnel-Sidedness g m n h)
offers-Sidedness g m absent h s i = elim i [ ]
offers-Sidedness g m (present t) h s i = offers-Sidedness g m t h s i
offers-Sidedness g m (cx_list a b) h s i =
    merge_all-mem (EntrySidedness g m) (offers a) (offers b) s
      (λ x y there. merge-Sidedness g m x y (λ o n.
        offers-Sidedness g m a h.0 x there o (get_of_mem g o x (offers-Unique a x there) n)))
      (offers-Sidedness g m b h.1) i
offers-Sidedness g m (select l r p) h s i = elim (mem-append-cases s (offers l) (offers r) i) [
  | inl n ↦ offers-Sidedness g m l h.0 s n
  | inr n ↦ offers-Sidedness g m r h.1 s n
]
