-- ===== src/Client/Clientset/Laws.antt =====
-- The clients of a clientset share a rate limiter.
use tekton_task_group.Base.{
  ◌≡◌, refl, sym, ap, ◌∙◌, true, false, Error, plain, Result, ok, err, ◌>>=◌, >>=-eq-ok, arith,
  ok_inj,
}
use tekton_task_group.Base.Panics
use tekton_task_group.Base.Panics.{done, or_die}
use tekton_task_group.Base.GoMap.{is_some}
use tekton_task_group.Client.Clientset.{
  ClientApi, Config, Makers, Clientset, limited, new_for_config, new_for_config_or_die, burst_text,
}

module _ (A : ClientApi) where
  limited-rate_limiter :
      (c copy : Config A)
      → limited A c ≡ ok copy
      → A.is_positive c.qps ≡ true
      → is_some copy.rate_limiter ≡ true
  unfolding limited
  limited-rate_limiter c copy h fast = ground (arith, h, fast)

  -- A clientset that is made of a config with a positive rate has its two clients made of one and
  -- the same config, and this has a rate limiter.
  pub new_for_config_shares :
      (make : Makers A) (c : Config A) (cs : Clientset A)
      → new_for_config A make c ≡ ok cs
      → A.is_positive c.qps ≡ true
      → (copy : Config A) × (make.new_custom copy ≡ ok cs.custom_v1alpha1)
        × (make.new_discovery copy ≡ ok cs.discovery_client)
        × (is_some copy.rate_limiter ≡ true)
  unfolding new_for_config
  new_for_config_shares make c cs h fast =
      let (copy, e, k) = >>=-eq-ok (limited A c) _ h in
      let (custom, f, l) = >>=-eq-ok (make.new_custom copy) _ k in
      let (discovery, g, m) = >>=-eq-ok (make.new_discovery copy) _ l in
      (
        copy,
        f ∙ ap (λ s. ok s.custom_v1alpha1) (ok_inj m),
        g ∙ ap (λ s. ok s.discovery_client) (ok_inj m),
        limited-rate_limiter c copy e fast,
      )

  no_burst :
      (make : Makers A) (c : Config A)
      → is_some c.rate_limiter ≡ false
      → A.is_positive c.qps ≡ true
      → A.is_positive_int c.burst ≡ false
      → (e : Error) × (new_for_config A make c ≡ err e)
  unfolding new_for_config limited
  no_burst make c bare fast small = (plain burst_text, ground (arith, bare, fast, small))

  -- What dying makes of a result.
  both_or_die :
      {X Y : Type 0} (x : Result X) (y : Result Y) (f : X → Y → Clientset A)
      → or_die (x >>= λ a. y >>= λ b. ok (f a b))
        ≡ Panics.◌>>=◌ (or_die x) (λ a. Panics.◌>>=◌ (or_die y) (λ b. done (f a b)))
  unfolding or_die
  both_or_die (ok x) (ok y) f = refl
  both_or_die (ok x) (err e) f = refl
  both_or_die (err e) y f = refl

  -- For a config that needs no new rate limiter, as it has one or its rate is not positive,
  -- `NewForConfigOrDie` gives the clientset that `NewForConfig` gives, and panics exactly where this
  -- fails, with its error's text.
  pub new_for_config_or_die-new_for_config :
      (make : Makers A) (c : Config A)
      → limited A c ≡ ok c
      → new_for_config_or_die A make c ≡ or_die (new_for_config A make c)
  unfolding new_for_config_or_die new_for_config
  new_for_config_or_die-new_for_config make c same =
      rw same (sym (both_or_die (make.new_custom c) (make.new_discovery c) _))

  -- For a config with no rate limiter, a positive rate and a burst that is not positive,
  -- `NewForConfig` fails, but `NewForConfigOrDie` gives a clientset if the two clients can be made.
  pub new_for_config_or_die_unchecked :
      (make : Makers A) (c : Config A) (custom : A.CustomClient) (discovery : A.DiscoveryClient)
      → is_some c.rate_limiter ≡ false
      → A.is_positive c.qps ≡ true
      → A.is_positive_int c.burst ≡ false
      → make.new_custom c ≡ ok custom
      → make.new_discovery c ≡ ok discovery
      → ((e : Error) × (new_for_config A make c ≡ err e))
        × (new_for_config_or_die A make c
            ≡ done (record { custom_v1alpha1 = custom; discovery_client = discovery }))
  unfolding new_for_config_or_die or_die
  new_for_config_or_die_unchecked make c custom discovery bare fast small made found =
      (no_burst make c bare fast small, rw (made, found))
