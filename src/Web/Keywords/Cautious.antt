-- ===== src/Web/Keywords/Cautious.antt =====
-- googletrends_app/main.py, the handlers that change one keyword or alert: what a refused request
-- leaves.
use googletrends.Base.{
  ℕ, ◌≡◌, ◌≢◌, refl, sym, ap, ◌∙◌, String, Bool, true, false, Option, none, some, List, [], ◌∷◌, In,
  is_some, first_where, nat_eq, strip, ◌⊎◌, Bool-cases, Option-cases, inl, inr, if◌then◌else◌,
  arith,
}
use googletrends.Trends.{serialize_gprops}
use googletrends.Database.{Db, Keyword, Alert}
use googletrends.Database.Table.{
  update_where, first_where-update_where, first_where-In, In-update_where,
}
use googletrends.Repository.Jobs.{find_keyword}
use googletrends.Repository.Keywords
use googletrends.Repository.Keywords.{
  Action, get_keyword, get_keyword_by_term, create_keyword, insert_keyword, keyword_timeframes,
  keyword_gprops, bulk_adjust_keyword_timeframes,
}
use googletrends.Repository.Alerts
use googletrends.Repository.Alerts.{get_alert}
use googletrends.Web.{Response, redirect, not_found}
use googletrends.Web.Keywords.{
  keyword_remark, alert_remark, gprop_updated, ensured, handle_add_keyword,
  handle_update_keyword_remark, handle_update_alert_remark, handle_update_keyword_gprop,
}

-- A redirect with an error, or the status 404.
abbrev pub is_refusal : Response → Bool
is_refusal (redirect target message error) = is_some error
is_refusal (not_found detail) = true
is_refusal _ = false

update_where-absent :
    {A : Type 0} (p : A → Bool) (f : A → A) (xs : List A)
    → first_where p xs ≡ none
    → update_where p f xs ≡ xs
update_where-absent p f [] h = refl
update_where-absent p f (x ∷ xs) h = ground (arith, update_where-absent p f xs)

-- A row that is not found after the update of its key has not been there before.
absent_before :
    {A : Type 0} (p : A → Bool) (f : A → A) (xs : List A)
    → ((x : A) → p (f x) ≡ p x)
    → first_where p (update_where p f xs) ≡ none
    → first_where p xs ≡ none
absent_before p f xs keep h = elim (Option-cases (first_where p xs)) [
  | inl e ↦ e
  | inr (a, e) ↦ cc (first_where-update_where p p f xs keep, e, h)
]

missing_keyword : (o : Option Keyword) → is_refusal (keyword_remark o) ≡ true → o ≡ none
missing_keyword none r = refl
missing_keyword (some k) r = cc r

missing_updated :
    (o : Option Keyword) (target : String) → is_refusal (gprop_updated o target) ≡ true → o ≡ none
missing_updated none target r = refl
missing_updated (some k) target r = cc r

none≢some : {A : Type 0} {a : A} → none ≢ some a
none≢some h = cc h

module _ {R : Type 0} where
  -- What a handler returns changes nothing if it is a refusal.
  abbrev pub IsCautious : Db R → Response × Db R → Type 0
  IsCautious db r = is_refusal r.0 ≡ true → r.1 ≡ db

  pub ensured-IsCautious :
      (db : Db R) (k : Option Keyword) (rest : Response × Db R)
      → ((x : Keyword) → k ≡ some x → IsCautious db rest)
      → IsCautious db (ensured db k rest)
  ensured-IsCautious db none rest h r = refl
  ensured-IsCautious db (some k) rest h r = h k refl r

  pub checked-IsCautious :
      (db : Db R) (refused : Bool) (a b : Response × Db R)
      → IsCautious db a
      → IsCautious db b
      → IsCautious db (if refused then a else b)
  checked-IsCautious db true a b h k = h
  checked-IsCautious db false a b h k = k

  missing_alert : (o : Option (Alert R × String)) → is_refusal (alert_remark o) ≡ true → o ≡ none
  missing_alert none r = refl
  missing_alert (some (a, term)) r = cc r

  pub add-IsCautious :
      (db : Db R) (now : ℕ) (term : String) → IsCautious db (handle_add_keyword db now term)
  unfolding handle_add_keyword create_keyword insert_keyword get_keyword_by_term
  add-IsCautious db now term r = ground arith

  pub remark-IsCautious :
      (db : Db R) (now id : ℕ) (remark : String)
      → IsCautious db (handle_update_keyword_remark db now id remark)
  unfolding handle_update_keyword_remark googletrends.Repository.Keywords.update_keyword_remark
      find_keyword
  remark-IsCautious db now id remark r =
      let p = λ (k : Keyword). nat_eq k.id id in
      let f = λ (k : Keyword). record k { remark = strip remark; updated_at = now } in
      ap (λ ks. record db { keywords = ks })
        (update_where-absent p f db.keywords
          (absent_before p f db.keywords (λ k. refl) (missing_keyword _ r)))

  -- Every alert has its keyword, as the foreign key of the table demands.
  abbrev pub HasKeywords : Db R → Type 0
  HasKeywords db = (a : Alert R) → In a db.alerts → is_some (find_keyword db a.keyword_id) ≡ true

  updated-HasKeywords :
      (db : Db R) (p : Alert R → Bool) (f : Alert R → Alert R)
      → ((a : Alert R) → (f a).keyword_id ≡ a.keyword_id)
      → HasKeywords db
      → HasKeywords (record db { alerts = update_where p f db.alerts })
  unfolding find_keyword
  updated-HasKeywords db p f same keyed a m =
      let r = In-update_where p f db.alerts m in
      rw (r.2) (kept r.0 (keyed r.0 r.1) (Bool-cases (p r.0)))
    where
      kept :
          (x : Alert R)
          → is_some (first_where (λ k. nat_eq k.id x.keyword_id) db.keywords) ≡ true
          → (p x ≡ true) ⊎ (p x ≡ false)
          → is_some (first_where (λ k. nat_eq k.id (if p x then f x else x).keyword_id) db.keywords)
            ≡ true
      kept x h (inl t) = rw (t, if◌then◌else◌) (rw (same x) h)
      kept x h (inr e) = rw (e, if◌then◌else◌) h

  get_alert-none :
      (db : Db R) (id : ℕ)
      → HasKeywords db
      → get_alert db id ≡ none
      → first_where (λ (a : Alert R). nat_eq a.id id) db.alerts ≡ none
  unfolding get_alert
  get_alert-none db id keyed h =
      elim (Option-cases (first_where (λ (a : Alert R). nat_eq a.id id) db.alerts)) [
        | inl e ↦ e
        | inr (a, e) ↦
            let known = keyed a (first_where-In (λ (x : Alert R). nat_eq x.id id) db.alerts e).0 in
            ground (arith, e, known, h)
      ]

  pub alert-IsCautious :
      (db : Db R) (id : ℕ) (remark : String)
      → HasKeywords db
      → IsCautious db (handle_update_alert_remark db id remark)
  unfolding handle_update_alert_remark googletrends.Repository.Alerts.update_alert_remark
  alert-IsCautious db id remark keyed r =
      let f = λ (a : Alert R). record a { remark = strip remark } in
      let p = λ (a : Alert R). nat_eq a.id id in
      let db' = record db { alerts = update_where p f db.alerts } in
      ap (λ as'. record db { alerts = as' })
        (update_where-absent p f db.alerts (
          absent_before p f db.alerts (λ a. refl)
            (get_alert-none db' id (updated-HasKeywords db p f (λ a. refl) keyed)
              (missing_alert (get_alert db' id) r))))

  pub gprop-IsCautious :
      (db : Db R) (now id : ℕ) (gprop : String) (url : Option String)
      → IsCautious db (handle_update_keyword_gprop db now id gprop url)
  unfolding handle_update_keyword_gprop googletrends.Repository.Keywords.update_keyword_gprops
      find_keyword get_keyword
  gprop-IsCautious db now id gprop url =
      let p = λ (k : Keyword). nat_eq k.id id in
      let f =
        λ (k : Keyword). record k { gprop = serialize_gprops (gprop ∷ []); updated_at = now } in
      ensured-IsCautious db (get_keyword db id) _ (λ x e r.
        absurd
          (none≢some (sym (absent_before p f db.keywords (λ k. refl) (missing_updated _ _ r)) ∙ e)))
