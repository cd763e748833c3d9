-- ===== src/Reports/Front.antt =====
-- What `Home` of miniapp/backend/internal/biz/report/biz.go shows.
use tidewise_ai.Prelude.{◌≡◌, String, true, none, List, [], ◌∷◌, ok, ◌⊎◌, All}
use tidewise_ai.Account.{Time}
use tidewise_ai.Reports.{Repository}
use tidewise_ai.Reports.Day.{shanghai_day}
use tidewise_ai.Reports.UseCase.{
  Group, Home, HomeCollection, kinds, version_six, all_version_six, latest_summary, today_query,
}

module _ {C : Type 0} (repository : Repository C) where
  abbrev pub kinds_of : List (Group C) → List String
  kinds_of [] = []
  kinds_of (g ∷ gs) = g.kind ∷ kinds_of gs

  abbrev pub CurrentGroups : List (Group C) → Type 0
  CurrentGroups = All (λ g. all_version_six repository g.page.items ≡ true)

  -- A home that is shown: a report of the current version with a group for each kind of analysis.
  abbrev pub IsHome : Home C → Type 0
  IsHome h =
      (h.report.schema_version ≡ version_six) × (kinds_of h.groups ≡ kinds) × CurrentGroups h.groups

  abbrev pub AtMostOne : List (Home C) → Type 0
  AtMostOne reports = (reports ≡ []) ⊎ ((h : Home C) × (reports ≡ h ∷ []) × IsHome h)

  -- What a collection holds, by the mode that it was asked for.
  abbrev pub Shown : String → String → HomeCollection C → Type 0
  Shown mode date c = AtMostOne c.reports × (c.date ≡ date) × ((c.mode ≡ "today") ⊎ (c.mode ≡ mode))

  -- The mode of the fallback is only there where the day has no report.
  abbrev pub FallsBack : Time → HomeCollection C → Type 0
  FallsBack now c =
      (c.mode ≡ "today")
      ⊎ ((c.mode ≡ "latest_fallback")
          × (latest_summary repository 0 (today_query repository (shanghai_day now)) ≡ ok none))
