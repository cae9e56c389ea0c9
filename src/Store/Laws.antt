-- ===== src/Store/Laws.antt =====
-- The public packages: what a visitor sees, and who gets to a checkout.
use slai.Base.{
  ◌≡◌, refl, true, List, [], ◌∷◌, Option, none, some, All, All-append, All-filter_by, if_split,
  arith,
}
use slai.Text.{Str}
use slai.Api.Errors.{Failure, Outcome, resolved, rejected, is_unauthorized}
use slai.Api.User.{User}
use slai.Packages.{CreditPackage}
use slai.Store.{
  Effect, checkout_package, Shop, is_active, load, loaded, after_me, choose_package, start_checkout,
  after_checkout, Event, opened, retried, chosen, packages_answered, me_answered, checkout_answered,
  step, run,
}

abbrev pub IsActive : CreditPackage → Type 0
IsActive pkg = pkg.active ≡ true

-- No checkout is asked for.
abbrev pub IsNoCheckout : Effect → Type 0
IsNoCheckout (checkout_package id) = ⊥
IsNoCheckout _ = Unit

-- Not the answer that someone is signed in.
abbrev pub IsNoUser : Event → Type 0
IsNoUser (me_answered (resolved user)) = ⊥
IsNoUser _ = Unit

abbrev IsSignedOut : Shop → Type 0
IsSignedOut s = s.current_user ≡ none

me-IsSignedOut : (e : Failure) (s : Shop) → IsSignedOut s → IsSignedOut (after_me (rejected e) s)
unfolding after_me
me-IsSignedOut e s h = if_split IsSignedOut (is_unauthorized e) (λ q. h) (λ q. refl)

start-IsNoCheckout :
    (u : Option User) (id : Str) (s : Shop)
    → u ≡ none
    → IsSignedOut s
    → IsSignedOut (start_checkout u id s).0 × All IsNoCheckout (start_checkout u id s).1
start-IsNoCheckout none id s e h = (h, (tt, tt))
start-IsNoCheckout (some u) id s e h = ground (arith, e)

step-IsNoCheckout :
    (s : Shop) (e : Event)
    → IsNoUser e
    → IsSignedOut s
    → IsSignedOut (step s e).0 × All IsNoCheckout (step s e).1
unfolding step load loaded choose_package after_checkout
step-IsNoCheckout s opened n h = (h, (tt, (tt, tt)))
step-IsNoCheckout s retried n h = (h, (tt, tt))
step-IsNoCheckout s (chosen id) n h = start-IsNoCheckout s.current_user id s h h
step-IsNoCheckout s (packages_answered (resolved ps)) n h = (h, tt)
step-IsNoCheckout s (packages_answered (rejected e)) n h = (h, tt)
step-IsNoCheckout s (me_answered (resolved u)) n h = elim n [ ]
step-IsNoCheckout s (me_answered (rejected e)) n h = (me-IsSignedOut e s h, tt)
step-IsNoCheckout s (checkout_answered (resolved p)) n h = (h, (tt, tt))
step-IsNoCheckout s (checkout_answered (rejected e)) n h = (h, tt)

-- Without a user, and as long as no answer says that someone is signed in, the packages page asks
-- for no checkout, whatever is chosen on it and whatever else is answered.
pub run-IsNoCheckout :
    (s : Shop) (events : List Event)
    → s.current_user ≡ none
    → All IsNoUser events
    → All IsNoCheckout (run s events).1
unfolding run
run-IsNoCheckout s [] h n = tt
run-IsNoCheckout s (e ∷ events) h (k, n) =
    let (signed_out, none_now) = step-IsNoCheckout s e k h in
    All-append IsNoCheckout (step s e).1 (run (step s e).0 events).1 none_now
      (run-IsNoCheckout (step s e).0 events signed_out n)

me-packages :
    (o : Outcome User) (s : Shop) → All IsActive s.packages → All IsActive (after_me o s).packages
unfolding after_me
me-packages (resolved u) s h = h
me-packages (rejected e) s h =
    if_split (λ (r : Shop). All IsActive r.packages) (is_unauthorized e) (λ q. h) (λ q. h)

step-packages :
    (s : Shop) (e : Event) → All IsActive s.packages → All IsActive ((step s e).0).packages
unfolding step load loaded choose_package after_checkout
step-packages s opened h = h
step-packages s retried h = h
step-packages s (chosen id) h = go s.current_user
  where
    go : (u : Option User) → All IsActive ((start_checkout u id s).0).packages
    go none = h
    go (some u) = h
step-packages s (packages_answered (resolved ps)) h = All-filter_by is_active ps
step-packages s (packages_answered (rejected e)) h = h
step-packages s (me_answered o) h = me-packages o s h
step-packages s (checkout_answered (resolved p)) h = h
step-packages s (checkout_answered (rejected e)) h = h

-- Whatever happens on the packages page from a list of active packages, every package that it shows
-- is active.
run-packages :
    (s : Shop) (events : List Event)
    → All IsActive s.packages
    → All IsActive ((run s events).0).packages
unfolding run
run-packages s [] h = h
run-packages s (e ∷ events) h = run-packages (step s e).0 events (step-packages s e h)
