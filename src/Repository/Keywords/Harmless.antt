-- ===== src/Repository/Keywords/Harmless.antt =====
-- googletrends_app/repository.py, the statements on keywords: what they keep of the table of jobs.
use googletrends.Base.{ℕ, refl, String, not, List, arith}
use googletrends.Trends.{serialize_gprops}
use googletrends.Database.{Db}
use googletrends.Repository.Jobs.{delete_jobs}
use googletrends.Repository.Jobs.Harmless.{Harmless, same-Harmless, select-Harmless}
use googletrends.Repository.Keywords.{
  create_keyword, insert_keyword, toggle_keyword, update_keyword, update_keyword_remark,
  update_keyword_timeframes, write_keyword_timeframes, update_keyword_gprops, dropped_gprop,
}

module _ {R : Type 0} where
  pub create_keyword-Harmless :
      (db : Db R) (now : ℕ) (term : String) → Harmless db (create_keyword db now term).1
  unfolding create_keyword insert_keyword
  create_keyword-Harmless db now term = same-Harmless db _ (ground arith) (ground arith)

  pub toggle_keyword-Harmless : (db : Db R) (now k : ℕ) → Harmless db (toggle_keyword db now k)
  unfolding toggle_keyword
  toggle_keyword-Harmless db now k = same-Harmless db _ refl refl

  pub update_keyword_remark-Harmless :
      (db : Db R) (now k : ℕ) (remark : String)
      → Harmless db (update_keyword_remark db now k remark).1
  unfolding update_keyword_remark
  update_keyword_remark-Harmless db now k remark = same-Harmless db _ refl refl

  pub write_keyword_timeframes-Harmless :
      (db : Db R) (now k : ℕ) (selected : String)
      → Harmless db (write_keyword_timeframes db now k selected)
  unfolding write_keyword_timeframes delete_jobs
  write_keyword_timeframes-Harmless db now k selected = select-Harmless _ db _ refl refl

  pub update_keyword_timeframes-Harmless :
      (db : Db R) (now k : ℕ) (timeframes : List String)
      → Harmless db (update_keyword_timeframes db now k timeframes).1
  unfolding update_keyword_timeframes
  update_keyword_timeframes-Harmless db now k timeframes =
      write_keyword_timeframes-Harmless db now k _

  pub update_keyword_gprops-Harmless :
      (db : Db R) (now k : ℕ) (gprops : List String)
      → Harmless db (update_keyword_gprops db now k gprops).1
  unfolding update_keyword_gprops delete_jobs
  update_keyword_gprops-Harmless db now k gprops =
      select-Harmless
        (λ j. not (
          dropped_gprop
            (update_keyword k (λ x. record x { gprop = serialize_gprops gprops; updated_at = now })
              db)
            k j))
        db _ refl refl
