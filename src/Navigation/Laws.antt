-- ===== src/Navigation/Laws.antt =====
-- Which entries of a navigation are marked, and who sees the way to the admin console.
use slai.Base.{
  ℕ, ◌+◌, ◌≤◌, ◌≡◌, refl, sym, subst, Bool, true, false, not, ◌&&◌, ◌||◌, List, [], ◌∷◌, ◌++◌,
  Option, none, some, codes, arith, Bool-cases, inl, inr, tally, &&-true, ||-true, ==_iff, ◌==◌,
}
use slai.Text.{Str, equals, starts_with}
use slai.Text.Equality.{equals_iff}
use slai.Api.User.{User, is_admin}
use slai.Session.{is_active_path}
use slai.Markup.{Nodes, has, leads, marked, count}
use slai.Navigation.{
  NavItem, dashboard_items, admin_items, Click, nav_item, nav_bar, dashboard_frame,
}

starts_refl : (s : Str) → starts_with s s ≡ true
unfolding starts_with
starts_refl [] = refl
starts_refl (c ∷ s) = rw ((==_iff c c).1 refl) (starts_refl s)

starts-append : (p s t : Str) → starts_with p s ≡ true → starts_with p (s ++ t) ≡ true
unfolding starts_with
starts-append [] s t h = refl
starts-append (c ∷ p) [] t h = cc
starts-append (c ∷ p) (d ∷ s) t h =
    let (e, k) = &&-true (c == d) (starts_with p s) h in rw e (starts-append p s t k)

-- Of two beginnings of one text one begins the other.
comparable :
    (p q s : Str)
    → starts_with p s ≡ true
    → starts_with q s ≡ true
    → (starts_with p q || starts_with q p) ≡ true
unfolding starts_with
comparable [] q s h k = refl
comparable (c ∷ p) [] s h k = refl
comparable (c ∷ p) (d ∷ q) [] h k = cc
comparable (c ∷ p) (d ∷ q) (e ∷ s) h k = ground (arith, comparable p q s)

-- A place with everything below it.
abbrev below : Str → Str
below href = href ++ codes "/"

abbrev covers : (q : Str) → NavItem → Bool
covers q item = starts_with (below (codes item.href)) q

count_covers : (q : Str) → List NavItem → ℕ
count_covers q [] = 0
count_covers q (item ∷ items) = tally (covers q item) + count_covers q items

abbrev are_apart : NavItem → NavItem → Bool
are_apart a b = not (covers (below (codes a.href)) b || covers (below (codes b.href)) a)

is_apart : NavItem → List NavItem → Bool
is_apart a [] = true
is_apart a (b ∷ items) = are_apart a b && is_apart a items

pairwise_apart : List NavItem → Bool
unfolding is_apart
pairwise_apart [] = true
pairwise_apart (a ∷ items) = is_apart a items && pairwise_apart items

covers-false :
    (q : Str) (a b : NavItem) → are_apart a b ≡ true → covers q a ≡ true → covers q b ≡ false
covers-false q a b h k = elim (Bool-cases (covers q b)) [
  | inl e ↦ absurd (ground (arith, comparable (below (codes a.href)) (below (codes b.href)) q k e))
  | inr e ↦ e
]

count_covers-zero :
    (q : Str) (a : NavItem) (items : List NavItem)
    → is_apart a items ≡ true
    → covers q a ≡ true
    → count_covers q items ≡ 0
unfolding count_covers is_apart
count_covers-zero q a [] h k = refl
count_covers-zero q a (b ∷ items) h k =
    let (p, r) = &&-true (are_apart a b) (is_apart a items) h in
    rw (covers-false q a b p k) (omega (arith, count_covers-zero q a items r k))

count_covers-le :
    (q : Str) (items : List NavItem) → pairwise_apart items ≡ true → count_covers q items ≤ 1
unfolding count_covers pairwise_apart
count_covers-le q [] h = omega arith
count_covers-le q (a ∷ items) h =
    let (p, r) = &&-true (is_apart a items) (pairwise_apart items) h in
    elim (Bool-cases (covers q a)) [
      | inl e ↦ rw e (omega (arith, count_covers-zero q a items p e))
      | inr e ↦ rw e (omega (arith, count_covers-le q items r))
    ]

-- Entries other than the home entry.
none_home : (home : Str) → List NavItem → Bool
none_home home [] = true
none_home home (item ∷ items) = not (equals (codes item.href) home) && none_home home items

covers_at :
    (path href : Str)
    → (equals path href || starts_with (below href) path) ≡ true
    → starts_with (below href) (below path) ≡ true
covers_at path href h = elim (||-true (equals path href) (starts_with (below href) path) h) [
  | inl e ↦
      subst (λ x. starts_with (below x) (below path) ≡ true) ((equals_iff path href).0 e)
        (starts_refl (below path))
  | inr e ↦ starts-append (below href) path (codes "/") e
]

active-covers :
    (home path : Str) (item : NavItem)
    → equals (codes item.href) home ≡ false
    → is_active_path home path (codes item.href) ≡ true
    → covers (below path) item ≡ true
unfolding is_active_path
active-covers home path item n = rw n (λ h. covers_at path (codes item.href) h)

tally-le : (a b : Bool) → (a ≡ true → b ≡ true) → tally a ≤ tally b
tally-le true b h = rw (h refl) (omega arith)
tally-le false b h = omega arith

nav_bar-covers :
    (home path : Str) (items : List NavItem)
    → none_home home items ≡ true
    → count marked (nav_bar home path items) ≤ count_covers (below path) items
unfolding count nav_bar nav_item count_covers none_home
nav_bar-covers home path [] h = omega arith
nav_bar-covers home path (item ∷ items) h =
    let (p, r) = &&-true (not (equals (codes item.href) home)) (none_home home items) h in
    omega (
      arith,
      nav_bar-covers home path items r,
      tally-le (is_active_path home path (codes item.href)) (covers (below path) item)
          (active-covers home path item (ground (arith, p))),
    )

nav_bar-le :
    (home path : Str) (items : List NavItem)
    → none_home home items ≡ true
    → pairwise_apart items ≡ true
    → count marked (nav_bar home path items) ≤ 1
nav_bar-le home path items h k =
    omega (arith, nav_bar-covers home path items h, count_covers-le (below path) items k)

elsewhere :
    (home path : Str) (item : NavItem) (items : List NavItem)
    → equals (codes item.href) home ≡ true
    → equals path (codes item.href) ≡ false
    → count marked (nav_bar home path (item ∷ items)) ≡ count marked (nav_bar home path items)
unfolding count nav_bar nav_item is_active_path
elsewhere home path item items h n = rw (h, n) (omega arith)

admin_home : count marked (nav_bar (codes "/admin") (codes "/admin") admin_items) ≡ 1
unfolding count nav_bar nav_item is_active_path equals starts_with
admin_home = refl

dashboard_home :
    count marked (nav_bar (codes "/dashboard") (codes "/dashboard") dashboard_items) ≡ 1
unfolding count nav_bar nav_item is_active_path equals starts_with
dashboard_home = refl

bar-le :
    (home : NavItem) (items : List NavItem) (path : Str)
    → count marked (nav_bar (codes home.href) (codes home.href) (home ∷ items)) ≡ 1
    → none_home (codes home.href) items ≡ true
    → pairwise_apart items ≡ true
    → count marked (nav_bar (codes home.href) path (home ∷ items)) ≤ 1
bar-le home items path one n apart = elim (Bool-cases (equals path (codes home.href))) [
  | inl e ↦
      subst (λ x. count marked (nav_bar (codes home.href) x (home ∷ items)) ≤ 1)
        (sym ((equals_iff path (codes home.href)).0 e)) (omega (arith, one))
  | inr e ↦ omega (
    arith,
    elsewhere (codes home.href) path home items
        ((equals_iff (codes home.href) (codes home.href)).1 refl) e,
    nav_bar-le (codes home.href) path items n apart,
  )
]

abbrev head_of : List NavItem → NavItem
head_of [] = record { href = ""; label = "" }
head_of (item ∷ items) = item

abbrev rest_of : List NavItem → List NavItem
rest_of [] = []
rest_of (item ∷ items) = items

-- On every path at most one entry of a navigation bar is marked as the page that is shown: of
-- the admin console, and of the dashboard.
pub nav_bar-OneMarked :
    (path : Str)
    → (count marked (nav_bar (codes "/admin") path admin_items) ≤ 1)
      × (count marked (nav_bar (codes "/dashboard") path dashboard_items) ≤ 1)
unfolding pairwise_apart is_apart none_home equals starts_with
nav_bar-OneMarked path = (
  bar-le (head_of admin_items) (rest_of admin_items) path admin_home refl refl,
  bar-le (head_of dashboard_items) (rest_of dashboard_items) path dashboard_home refl refl,
)

abbrev pub to_admin : Str → Bool
to_admin href = equals href (codes "/admin")

module _ (to_upper : Str → Str) where
  -- The dashboard's frame adds a way to the admin console exactly for an administrator.
  pub has-dashboard_frame :
      (pathname : Str) (logging_out : Bool) (user : Option User) (children : Nodes Click)
      → has (leads to_admin) (dashboard_frame to_upper pathname logging_out user children)
        ≡ (is_admin user || has (leads to_admin) children)
  unfolding has dashboard_frame nav_bar nav_item equals
  has-dashboard_frame pathname logging_out none children = elim (Bool-cases (is_admin none)) [
    | inl e ↦ rw e refl
    | inr e ↦ rw e refl
  ]
  has-dashboard_frame pathname logging_out (some u) children =
      elim (Bool-cases (is_admin (some u))) [ inl e ↦ rw e refl | inr e ↦ rw e refl ]
