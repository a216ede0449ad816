-- ===== src/Listener/Distinct.antt =====
-- GetListeningFilters returns the filters of all listeners, each once up to nostr.FilterEqual.
use demedia_nostr.Prelude.{
  All-append, All-imp, In, In-append, String, ◌≡◌, refl, Bool, true, false, ◌||◌, List, [], ◌∷◌,
  ◌++◌, arith, All, any, Bool-cases, inl, inr,
}
use mathlib.Core.List.{append-nil, append_assoc}
use demedia_nostr.Prelude.Map.{Map}
use demedia_nostr.Nostr.{Filter, Nostr}
use demedia_nostr.Listener.Defs.{
  Listener, Listeners, add_filter, add_filters, add_subs, add_listeners, subs_filters,
  listener_filters, get_listening_filters,
}

any-append {ℓ} :
    {A : Type ℓ} (p : A → Bool) (xs ys : List A) → any p (xs ++ ys) ≡ (any p xs || any p ys)
any-append p [] ys = refl
any-append p (x ∷ xs) ys = ground (arith, any-append p xs ys)

module _ (n : Nostr) where
  -- None of the filters equals one of those that stand before it.
  abbrev pub AllNew : List Filter → List Filter → Type 0
  AllNew seen [] = Unit
  AllNew seen (f ∷ fs) = (any (n.filter_equal f) seen ≡ false) × AllNew (seen ++ (f ∷ [])) fs

  AllNew-append :
      (seen xs : List Filter) (f : Filter)
      → AllNew seen xs
      → any (n.filter_equal f) (seen ++ xs) ≡ false
      → AllNew seen (xs ++ (f ∷ []))
  AllNew-append seen [] f h e = (rw append-nil at e, tt)
  AllNew-append seen (x ∷ xs) f h e =
      (h.0, AllNew-append (seen ++ (x ∷ [])) xs f h.1 (rw append_assoc e))

  -- What the loops have made of the filters that they went through.
  pub record Collected (fs out : List Filter) : Type 0 where
    pub fresh : AllNew [] out
    pub from : All (λ f. In f fs) out
    pub covers : All (λ f. any (n.filter_equal f) out ≡ true) fs

  module _ (reflexive : (f : Filter) → n.filter_equal f f ≡ true) where
    Collected-add_filter :
        (fs out : List Filter) (f : Filter)
        → Collected fs out
        → Collected (fs ++ (f ∷ [])) (add_filter n out f)
    unfolding add_filter
    Collected-add_filter fs out f c = elim (Bool-cases (any (n.filter_equal f) out)) [
      | inl there ↦
          rw (there, add_filter)
            (record {
              fresh = c.fresh;
              from = All-imp (λ g. In g fs) _ out grown c.from;
              covers = All-append _ fs (f ∷ []) c.covers (there, tt);
            })
      | inr missing ↦
          rw (missing, add_filter)
            (record {
              fresh = AllNew-append [] out f c.fresh missing;
              from =
                  All-append _ out (f ∷ []) (All-imp (λ g. In g fs) _ out grown c.from)
                    ((In-append f fs (f ∷ [])).1 (inr (inl refl)), tt);
              covers =
                  All-append _ fs (f ∷ [])
                    (All-imp (λ g. any (n.filter_equal g) out ≡ true) _ fs
                      (λ g h. ground (arith, any-append (n.filter_equal g) out (f ∷ []), h))
                      c.covers)
                    (ground (arith, any-append (n.filter_equal f) out (f ∷ []), reflexive f), tt);
            })
    ]
      where
        grown : (g : Filter) → In g fs → In g (fs ++ (f ∷ []))
        grown g h = (In-append g fs (f ∷ [])).1 (inl h)

    Collected-add_filters :
        (fs out gs : List Filter) → Collected fs out → Collected (fs ++ gs) (add_filters n out gs)
    unfolding add_filters
    Collected-add_filters fs out [] c = rw append-nil c
    Collected-add_filters fs out (g ∷ gs) c = rw (← append_assoc fs (g ∷ []) gs) (
        Collected-add_filters (fs ++ (g ∷ [])) (add_filter n out g) gs
          (Collected-add_filter fs out g c))

    Collected-add_subs :
        (fs out : List Filter) (subs : Map String Listener)
        → Collected fs out
        → Collected (fs ++ subs_filters n subs) (add_subs n out subs)
    unfolding add_subs subs_filters
    Collected-add_subs fs out [] c = rw append-nil c
    Collected-add_subs fs out ((id, l) ∷ subs) c =
        rw (← append_assoc fs l.filters (subs_filters n subs)) (
          Collected-add_subs (fs ++ l.filters) (add_filters n out l.filters) subs
            (Collected-add_filters fs out l.filters c))

    Collected-add_listeners :
        (fs out : List Filter) (listeners : Listeners)
        → Collected fs out
        → Collected (fs ++ listener_filters n listeners) (add_listeners n out listeners)
    unfolding add_listeners listener_filters
    Collected-add_listeners fs out [] c = rw append-nil c
    Collected-add_listeners fs out ((ws, subs) ∷ listeners) c =
        rw (← append_assoc fs (subs_filters n subs) (listener_filters n listeners)) (
          Collected-add_listeners (fs ++ subs_filters n subs) (add_subs n out subs) listeners
            (Collected-add_subs fs out subs c))

    -- If nostr.FilterEqual holds between each filter and itself, then in the filters that
    -- GetListeningFilters returns none equals one before it, each is a filter of some listener,
    -- and each filter of a listener equals one of them.
    pub get_listening_filters-Collected :
        (listeners : Listeners)
        → Collected (listener_filters n listeners) (get_listening_filters n listeners)
    unfolding get_listening_filters
    get_listening_filters-Collected listeners =
        Collected-add_listeners [] [] listeners (record { fresh = tt; from = tt; covers = tt })
