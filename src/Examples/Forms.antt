-- ===== src/Examples/Forms.antt =====
-- The theorem on the form for new zones applied to one that is filled in. Every text counts as alphanumeric.
use goatns.Prelude.{none, true, ◌≡◌, ◌⊎◌, ◌∷◌, [], codes}
use goatns.Database.Consistent.{IsConsistent}
use goatns.Examples.Home.{home_db, home_kept}
use goatns.Examples.Pages.{owner_session}
use goatns.Examples.Signups.{site}
use goatns.Examples.Requests.{outside, outside-Reads}
use goatns.Web.Pages.{Site}
use goatns.Web.NewZone.{zones_new_post}
use goatns.Web.NewZone.Created.{IsNewZone, zones_new_post-IsNewZone}

abbrev pages : Site
pages = record {
  std = outside;
  running = true;
  number = λ n. n ∷ [];
  all_alphanumeric = λ part. true;
}

zones_new_post-IsNewZone_example :
    let after = (zones_new_post pages none (codes "goat.net") owner_session (site home_db)).state in
    IsConsistent after.db
    × ((after.db ≡ home_db) ⊎ IsNewZone pages (codes "goat.net") owner_session home_db after.db)
zones_new_post-IsNewZone_example =
    zones_new_post-IsNewZone pages none (codes "goat.net") owner_session (site home_db)
      outside-Reads home_kept
