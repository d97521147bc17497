-- ===== src/Tests/Monitored.antt =====
-- Windows and search properties.
use googletrends.Base.{
  nat_eq, if◌then◌else◌, none, refl, String, some, List, [], ◌∷◌, ◌≡◌, contains,
}
use googletrends.Trends.{
  available_timeframes, available_gprops, monitored_timeframes, default_gprops, parse_timeframes,
  serialize_timeframes, parse_gprops, serialize_gprops,
}
use googletrends.Trends.Codec.{csv_has}
use googletrends.Trends.RoundTrip.Selection.{IsSelection, chosen}
use googletrends.Trends.RoundTrip.{
  parse_timeframes-IsSelection, parse_gprops-IsSelection, parse-serialize_timeframes,
  parse-serialize_gprops, csv_has-serialize_timeframes, csv_has-serialize_gprops,
}
use googletrends.Database.{operational_error}
use googletrends.Database.Table.{delete_where}
use googletrends.Repository.Keywords.{
  WriteFaults, no_faults, add, update_keyword_timeframes, bulk_adjust_keyword_timeframes,
}
use googletrends.Repository.Keywords.Bulk.{
  IsAllOrNothing, planned, bulk_adjust_keyword_timeframes-IsAllOrNothing,
}
use googletrends.Repository.Keywords.Monitoring.{is_dropped, update_keyword_timeframes-drops}
use googletrends.Tests.Data.{tea_db}

abbrev asked : List String
asked = "today 5-y" ∷ "never" ∷ "now 1-d" ∷ "today 5-y" ∷ []

parse_timeframes-IsSelection_example :
    IsSelection available_timeframes (parse_timeframes (some " now 1-d, never,now 1-d,"))
parse_timeframes-IsSelection_example =
    parse_timeframes-IsSelection (some " now 1-d, never,now 1-d,")

parse_gprops-IsSelection_example : IsSelection available_gprops (parse_gprops (some "news,,news"))
parse_gprops-IsSelection_example = parse_gprops-IsSelection (some "news,,news")

parse-serialize_timeframes_example :
    parse_timeframes (some (serialize_timeframes asked))
    ≡ chosen available_timeframes monitored_timeframes asked
parse-serialize_timeframes_example = parse-serialize_timeframes asked

parse-serialize_gprops_example :
    parse_gprops (some (serialize_gprops ("news" ∷ "" ∷ [])))
    ≡ chosen available_gprops default_gprops ("news" ∷ "" ∷ [])
parse-serialize_gprops_example = parse-serialize_gprops ("news" ∷ "" ∷ [])

csv_has-serialize_timeframes_example :
    csv_has (serialize_timeframes asked) "now 1-d"
    ≡ contains "now 1-d" (parse_timeframes (some (serialize_timeframes asked)))
csv_has-serialize_timeframes_example = csv_has-serialize_timeframes asked "now 1-d" refl

csv_has-serialize_gprops_example :
    csv_has (serialize_gprops ("news" ∷ "" ∷ [])) ""
    ≡ contains "" (parse_gprops (some (serialize_gprops ("news" ∷ "" ∷ []))))
csv_has-serialize_gprops_example = csv_has-serialize_gprops ("news" ∷ "" ∷ []) "" refl

update_keyword_timeframes-drops_example :
    (update_keyword_timeframes tea_db 50 1 ("now 7-d" ∷ [])).1.jobs
    ≡ delete_where
        (is_dropped 1 (parse_timeframes (some (serialize_timeframes ("now 7-d" ∷ [])))))
        tea_db.jobs
update_keyword_timeframes-drops_example =
    update_keyword_timeframes-drops tea_db 50 1 ("now 7-d" ∷ []) (refl, (refl, (refl, tt)))

-- The second statement is refused, between the change of the windows and the deletion of the jobs.
abbrev locked : WriteFaults
locked = record no_faults {
  at_statement = λ i. if nat_eq i 1 then some (operational_error "database is locked") else none;
}

bulk_adjust_keyword_timeframes-IsAllOrNothing_example :
    IsAllOrNothing tea_db 50
      (planned tea_db (1 ∷ []) ("today 3-m" ∷ []) add)
      (bulk_adjust_keyword_timeframes locked tea_db 50 (1 ∷ []) ("today 3-m" ∷ []) add)
bulk_adjust_keyword_timeframes-IsAllOrNothing_example =
    bulk_adjust_keyword_timeframes-IsAllOrNothing locked tea_db 50 (1 ∷ []) ("today 3-m" ∷ []) add
