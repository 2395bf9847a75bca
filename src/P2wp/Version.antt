-- ===== src/P2wp/Version.antt =====
-- firmware/src/p2wp.c: the choice of a protocol revision.
use p2000t_teletekst_cartrid.Prelude.{ℕ, ◌≤◌, ◌||◌, ◌≢◌, arith, ltb, leb, if◌then◌else◌}

unfoldable pub select_version : ℕ → ℕ → ℕ → ℕ → ℕ
select_version host_minimum host_maximum peripheral_minimum peripheral_maximum =
    if ltb host_maximum host_minimum || ltb peripheral_maximum peripheral_minimum
    then 0
    else let lowest =
        if ltb peripheral_minimum host_minimum then host_minimum else peripheral_minimum in
      let highest =
        if ltb host_maximum peripheral_maximum then host_maximum else peripheral_maximum in
      if leb lowest highest then highest else 0

-- Revision `v` is one of both ranges.
abbrev pub IsShared : ℕ → ℕ → ℕ → ℕ → ℕ → Type 0
IsShared host_minimum host_maximum peripheral_minimum peripheral_maximum v =
    (host_minimum ≤ v) × (v ≤ host_maximum) × (peripheral_minimum ≤ v) × (v ≤ peripheral_maximum)

pub select_version_lem :
    (host_minimum host_maximum peripheral_minimum peripheral_maximum : ℕ)
    → (let selected =
          select_version host_minimum host_maximum peripheral_minimum peripheral_maximum in
        let Shared = IsShared host_minimum host_maximum peripheral_minimum peripheral_maximum in
        (selected ≢ 0 → Shared selected) × ((v : ℕ) → Shared v → v ≤ selected))
unfolding select_version
select_version_lem hm hx pm px = (λ h. ground arith, λ v h. ground arith)

-- Where the two ranges share a revision, the selected one is shared too, and is the greatest.
pub select_version-greatest :
    (host_minimum host_maximum peripheral_minimum peripheral_maximum v : ℕ)
    → IsShared host_minimum host_maximum peripheral_minimum peripheral_maximum v
    → IsShared host_minimum host_maximum peripheral_minimum peripheral_maximum
        (select_version host_minimum host_maximum peripheral_minimum peripheral_maximum)
      × (v ≤ select_version host_minimum host_maximum peripheral_minimum peripheral_maximum)
unfolding select_version
select_version-greatest hm hx pm px v h = ground arith
