-- ===== src/Store/LegacyImport/Links/Best.antt =====
-- matchLegacySubscriptionNode of internal/store/legacy_import.go finds the best node for a link.
use mathlib.Core.Path.{subst}
use proxy_control_plane.Base.{
  ℕ, true, false, ◌&&◌, Option, none, some, List, [], ◌∷◌, ◌≡◌, refl, arith, inl, inr, Option-cases,
  Bool-cases, any, any-eq, From, ◌⊎◌, ap, sym, ◌∙◌, ltb,
}
use proxy_control_plane.Domain.{ProxyNode}
use proxy_control_plane.Store.LegacyImport.Links.Match.{
  LegacySubscriptionLinkInput, is_candidate, score, beats, best_of, match_node,
}

module _ (link : LegacySubscriptionLinkInput) where
  -- The best node so far is a candidate, and is kept with its own score.
  abbrev Sound : Option (ProxyNode × ℕ) → Type 0
  Sound none = Unit
  Sound (some best) = (is_candidate link best.0 ≡ true) × (best.1 ≡ score link best.0)

  best_of-Sound :
      (nodes : List ProxyNode) (best : Option (ProxyNode × ℕ))
      → Sound best
      → Sound (best_of link nodes best)
  unfolding best_of
  best_of-Sound [] best s = s
  best_of-Sound (node ∷ nodes) best s =
      elim (Bool-cases (is_candidate link node && beats (score link node) best)) [
        | inl e ↦ rw e (best_of-Sound nodes (some (node, score link node)) (ground arith, refl))
        | inr e ↦ rw e (best_of-Sound nodes best s)
      ]

  -- What beats the result beats where the loop began.
  beats_before :
      (k : ℕ) (nodes : List ProxyNode) (best : Option (ProxyNode × ℕ))
      → beats k (best_of link nodes best) ≡ true
      → beats k best ≡ true
  unfolding best_of
  beats_before k [] best h = h
  beats_before k (node ∷ nodes) none h = refl
  beats_before k (node ∷ nodes) (some best) h =
      elim (Bool-cases (is_candidate link node && ltb best.1 (score link node))) [
        | inl e ↦ ground (arith, e, beats_before k nodes (some (node, score link node)) (rw e at h))
        | inr e ↦ beats_before k nodes (some best) (rw e at h)
      ]

  unbeaten :
      (nodes : List ProxyNode) (best result : Option (ProxyNode × ℕ))
      → result ≡ best_of link nodes best
      → any (λ m. is_candidate link m && beats (score link m) result) nodes ≡ false
  unfolding best_of
  unbeaten [] best result q = refl
  unbeaten (node ∷ nodes) best result q =
      let k = score link node in
      let own : Option (ProxyNode × ℕ) = some (node, k) in
      elim (Bool-cases (is_candidate link node && beats k best)) [
        | inl e ↦
            let r : result ≡ best_of link nodes own = rw e at q in
            let before : beats k result ≡ true → beats k own ≡ true =
              λ h. beats_before k nodes own (rw r at h) in
            ground (arith, unbeaten nodes own result r, before)
        | inr e ↦
            let r : result ≡ best_of link nodes best = rw e at q in
            let before : beats k result ≡ true → beats k best ≡ true =
              λ h. beats_before k nodes best (rw r at h) in
            ground (arith, e, unbeaten nodes best result r, before)
      ]

  sound_of :
      (nodes : List ProxyNode) (best : ProxyNode × ℕ)
      → best_of link nodes none ≡ some best
      → (is_candidate link best.0 ≡ true) × (best.1 ≡ score link best.0)
  sound_of nodes best e = subst Sound e (best_of-Sound nodes none tt)

  best_of-From :
      (nodes : List ProxyNode) (best : Option (ProxyNode × ℕ)) (b : ProxyNode × ℕ)
      → best_of link nodes best ≡ some b
      → (best ≡ some b) ⊎ From b.0 nodes
  unfolding best_of
  best_of-From [] best b h = inl h
  best_of-From (node ∷ nodes) best b h =
      elim (Bool-cases (is_candidate link node && beats (score link node) best)) [
        | inl e ↦ elim (best_of-From nodes (some (node, score link node)) b (rw e at h)) [
          | inl own ↦ inr (inl (ground (arith, own)))
          | inr there ↦ inr (inr there)
        ]
        | inr e ↦ elim (best_of-From nodes best b (rw e at h)) [
          | inl own ↦ inl own
          | inr there ↦ inr (inr there)
        ]
      ]

  stands_in :
      (nodes : List ProxyNode) (b : ProxyNode × ℕ)
      → best_of link nodes none ≡ some b
      → From b.0 nodes
  stands_in nodes b e = elim (best_of-From nodes none b e) [
    | inl h ↦ absurd (cc)
    | inr there ↦ there
  ]

  -- A link that is matched is matched to a node of the list that it agrees with and that no other such
  -- node scores higher than; a link that is not matched agrees with no node.
  pub match_node_best :
      (nodes : List ProxyNode)
      → ((node : ProxyNode)
          → match_node nodes link ≡ some node
          → From node nodes
            × (is_candidate link node ≡ true)
            × (any (λ m. is_candidate link m && ltb (score link node) (score link m)) nodes
                ≡ false))
        × (match_node nodes link ≡ none → any (is_candidate link) nodes ≡ false)
  unfolding match_node
  match_node_best nodes = elim (Option-cases (best_of link nodes none)) [
    | inl e ↦ (
      λ node h. absurd (ground (arith, e, h)),
      λ h.
          any-eq _ (λ m. is_candidate link m && true) nodes (λ m. ground arith)
          ∙ unbeaten nodes none none (sym e),
    )
    | inr (best, e) ↦
        let s = sound_of nodes best e in
        (
          λ node h.
              let own : best.0 ≡ node = ground (arith, e, h) in
              subst
                (λ n.
                  From n nodes
                  × (is_candidate link n ≡ true)
                  × (any (λ m. is_candidate link m && ltb (score link n) (score link m)) nodes
                      ≡ false))
                own
                (
                  stands_in nodes best e,
                  s.0,
                  ap (λ n. any (λ m. is_candidate link m && ltb n (score link m)) nodes) (sym s.1)
                      ∙ unbeaten nodes none (some best) (sym e),
                ),
          λ h. absurd (ground (arith, e, h)),
        )
  ]
