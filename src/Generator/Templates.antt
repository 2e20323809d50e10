-- ===== src/Generator/Templates.antt =====
-- When `addMetadataLinks` returns: if the metadata URLs that it looks up are there and their
-- templates can be rendered.
use atom_operator.Prelude.{
  String, Bool, true, false, ◌&&◌, ◌≡◌, refl, sym, ◌∙◌, inl, inr, ap, Option, none, some, List, [],
  ◌∷◌, ◌++◌, str_eq, if_and-false, if◌then◌else◌,
}
use atom_operator.Prelude.Result.{
  Result, ok, ok_injective, deref, ◌>>=◌, >>=-eq-ok, Returns, Returns-bind,
}
use atom_operator.Api.Model.{MetadataUrl, MetadataUrls, OwnerInfo}
use atom_operator.Api.V3.{MetadataLink}
use atom_operator.Api.V3.OwnerCheck.Laws.{HasUrls, HasUrls-tail, asked, asked_cases, HasUrl}
use atom_operator.Generator.Feeds.{Link}
use atom_operator.Generator.Links.{
  Env, metadata_href, csw_link, open_search_link, html_link, append_if, add_others, add_templates,
  replace_mustache_template,
}

Returns-if {ℓ} :
    {A : Type ℓ} (b : Bool) (r s : Result A) → Returns r → Returns s → Returns (if b then r else s)
Returns-if true r s hr hs = hr
Returns-if false r s hr hs = hs

append_if-Returns :
    (b : Bool) (link : Result Link) (links : List Link)
    → (b ≡ true → Returns link)
    → Returns (append_if b link links)
unfolding append_if
append_if-Returns false link links h = (links, refl)
append_if-Returns true link links h = Returns-bind link _ (h refl) (λ l _. (links ++ l ∷ [], refl))

deref-eq-ok : {A : Type 0} {a : A} (x : Option A) → deref x ≡ ok a → x ≡ some a
deref-eq-ok none h = absurd (cc)
deref-eq-ok (some b) h = ap some (ok_injective h)

append_if_inverse :
    (b : Bool) (link : Result Link) (links : List Link)
    → Returns (append_if b link links)
    → b ≡ true
    → Returns link
unfolding append_if
append_if_inverse false link links h e = absurd (cc)
append_if_inverse true link links (ls, h) e = let (l, f, _) = >>=-eq-ok link _ h in (l, f)

module _ {URL : Type 0} (env : Env URL) (o : OwnerInfo URL) where
  -- `mustache.Render` accepts this template of the OwnerInfo, if there is one, for every identifier.
  abbrev pub RendersUrl : (MetadataUrls → Option MetadataUrl) → Type 0
  RendersUrl select =
      (urls : MetadataUrls) (u : MetadataUrl) (identifier : String)
      → o.metadata_urls ≡ some urls
      → select urls ≡ some u
      → Returns (replace_mustache_template env u.href_template identifier)

  -- It accepts the three templates of the OwnerInfo.
  pub record Renders : Type 0 where
    pub csw : RendersUrl (λ u. u.csw)
    pub open_search : RendersUrl (λ u. u.open_search)
    pub html : RendersUrl (λ u. u.html)

  metadata_href-Returns :
      (select : MetadataUrls → Option MetadataUrl) (m : MetadataLink)
      → RendersUrl select
      → HasUrl select o
      → Returns (metadata_href env select m o)
  unfolding metadata_href
  metadata_href-Returns select m r (urls, u, e, f) =
      let (href, g) = r urls u m.metadata_identifier e f in (href, rw (e, f, g))

  module _ (r : Renders) where
    csw_link-Returns : (m : MetadataLink) → HasUrl (λ u. u.csw) o → Returns (csw_link env m o)
    unfolding csw_link
    csw_link-Returns m h =
        Returns-bind _ _ (metadata_href-Returns _ m r.csw h) (λ href _. (_, refl))

    open_search_link-Returns :
        (m : MetadataLink) → HasUrl (λ u. u.open_search) o → Returns (open_search_link env m o)
    unfolding open_search_link
    open_search_link-Returns m h =
        Returns-bind _ _ (metadata_href-Returns _ m r.open_search h) (λ href _. (_, refl))

    html_link-Returns :
        (title : String) (m : MetadataLink)
        → HasUrl (λ u. u.html) o
        → Returns (html_link env title m o)
    unfolding html_link
    html_link-Returns title m h =
        Returns-bind _ _ (metadata_href-Returns _ m r.html h) (λ href _. (_, refl))

    add_others-Returns :
        (m : MetadataLink) (title t : String) (ts : List String) (links : List Link)
        → HasUrls (t ∷ ts) o
        → Returns (add_others env m o title t links)
    unfolding add_others
    add_others-Returns m title t ts links h =
        Returns-bind _ _
          (append_if-Returns (str_eq t "opensearch") (open_search_link env m o) links
            λ e. open_search_link-Returns m (h.open_search (asked t "opensearch" ts e)))
          λ ls _.
            append_if-Returns (str_eq t "html") (html_link env title m o) ls
              λ e. html_link-Returns title m (h.html (asked t "html" ts e))

    pub add_templates-Returns :
        (m : MetadataLink) (title : String) (only_csw : Bool) (ts : List String) (links : List Link)
        → HasUrls ts o
        → Returns (add_templates env m o title only_csw ts links)
    unfolding add_templates
    add_templates-Returns m title only_csw [] links h = (links, refl)
    add_templates-Returns m title only_csw (t ∷ ts) links h =
        Returns-bind _ _
          (append_if-Returns (str_eq t "csw") (csw_link env m o) links
            λ e. csw_link-Returns m (h.csw (asked t "csw" ts e)))
          λ ls _.
            Returns-if (str_eq t "csw" && only_csw) _ _ (ls, refl)
              (Returns-bind _ _ (add_others-Returns m title t ts ls h)
                λ ls' _. add_templates-Returns m title only_csw ts ls' (HasUrls-tail t ts o h))

  metadata_href_inverse :
      (select : MetadataUrls → Option MetadataUrl) (m : MetadataLink)
      → Returns (metadata_href env select m o)
      → HasUrl select o
  unfolding metadata_href
  metadata_href_inverse select m (href, h) =
      let (urls, e, h') = >>=-eq-ok (deref o.metadata_urls) _ h in
      let (u, f, _) = >>=-eq-ok (deref (select urls)) _ h' in
      (urls, u, deref-eq-ok _ e, deref-eq-ok _ f)

  link_inverse :
      (select : MetadataUrls → Option MetadataUrl) (m : MetadataLink) (k : String → Result Link)
      → Returns (metadata_href env select m o >>= k)
      → HasUrl select o
  link_inverse select m k (l, h) =
      let (href, e, _) = >>=-eq-ok (metadata_href env select m o) k h in
      metadata_href_inverse select m (href, e)

  csw_link_inverse : (m : MetadataLink) → Returns (csw_link env m o) → HasUrl (λ u. u.csw) o
  unfolding csw_link
  csw_link_inverse m = link_inverse (λ u. u.csw) m _

  open_search_link_inverse :
      (m : MetadataLink) → Returns (open_search_link env m o) → HasUrl (λ u. u.open_search) o
  unfolding open_search_link
  open_search_link_inverse m = link_inverse (λ u. u.open_search) m _

  html_link_inverse :
      (title : String) (m : MetadataLink)
      → Returns (html_link env title m o)
      → HasUrl (λ u. u.html) o
  unfolding html_link
  html_link_inverse title m = link_inverse (λ u. u.html) m _

  add_others_inverse :
      (m : MetadataLink) (title t : String) (links : List Link)
      → Returns (add_others env m o title t links)
      → (str_eq t "opensearch" ≡ true → Returns (open_search_link env m o))
        × (str_eq t "html" ≡ true → Returns (html_link env title m o))
  unfolding add_others
  add_others_inverse m title t links (out, h) =
      let (ls, e, h') =
        >>=-eq-ok (append_if (str_eq t "opensearch") (open_search_link env m o) links)
          (append_if (str_eq t "html") (html_link env title m o)) h in
      (
        append_if_inverse (str_eq t "opensearch") (open_search_link env m o) links (ls, e),
        append_if_inverse (str_eq t "html") (html_link env title m o) ls (out, h'),
      )

  pub add_templates_inverse :
      (m : MetadataLink) (title : String) (ts : List String) (links : List Link)
      → Returns (add_templates env m o title false ts links)
      → HasUrls ts o
  unfolding add_templates
  add_templates_inverse m title [] links h = record {
    csw = λ e. cc;
    html = λ e. cc;
    open_search = λ e. cc;
  }
  add_templates_inverse m title (t ∷ ts) links (out, h) =
      let (ls, e₁, h₁) = >>=-eq-ok (append_if (str_eq t "csw") (csw_link env m o) links) _ h in
      let (ls', e₂, h₂) =
        >>=-eq-ok (add_others env m o title t ls) (add_templates env m o title false ts)
          (sym (if_and-false (str_eq t "csw") _ _) ∙ h₁) in
      let rest = add_templates_inverse m title ts ls' (out, h₂) in
      let (search, html) = add_others_inverse m title t ls (ls', e₂) in
      record {
        csw = λ e. elim (asked_cases t "csw" ts e) [
          | inl here ↦ csw_link_inverse m (append_if_inverse _ _ links (ls, e₁) here)
          | inr later ↦ rest.csw later
        ];
        html = λ e. elim (asked_cases t "html" ts e) [
          | inl here ↦ html_link_inverse title m (html here)
          | inr later ↦ rest.html later
        ];
        open_search = λ e. elim (asked_cases t "opensearch" ts e) [
          | inl here ↦ open_search_link_inverse m (search here)
          | inr later ↦ rest.open_search later
        ];
      }
