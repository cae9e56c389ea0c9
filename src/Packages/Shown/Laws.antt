-- ===== src/Packages/Shown/Laws.antt =====
-- Which packages are visible.
use slai.Base.{◌≡◌, ◌↔◌, true, List, Mem, &&-true, Mem-filter_by_iff, arith}
use slai.Text.{Str}
use slai.Packages.{CreditPackage}
use slai.Packages.Page.{StatusFilter}
use slai.Packages.Shown.{matches_search, matches_status, is_visible, visible_packages}

-- The page shows exactly the packages that pass its status filter and its search.
Mem-visible_packages_iff :
    (to_lower_case : Str → Str) (search : Str) (status : StatusFilter) (pkg : CreditPackage)
    (packages : List CreditPackage)
    → Mem pkg (visible_packages to_lower_case search status packages) ↔ (
        Mem pkg packages
        × (matches_status to_lower_case search status pkg ≡ true)
        × (matches_search to_lower_case search pkg ≡ true))
unfolding visible_packages is_visible
Mem-visible_packages_iff to_lower_case search status pkg packages = (
  λ m.
      let (n, h) = (Mem-filter_by_iff (is_visible to_lower_case search status) pkg packages).0 m in
      let (a, b) =
        &&-true (matches_status to_lower_case search status pkg)
          (matches_search to_lower_case search pkg) h in
      (n, a, b),
  λ (n, a, b).
      (Mem-filter_by_iff (is_visible to_lower_case search status) pkg packages).1
        (n, ground (arith, a, b)),
)
