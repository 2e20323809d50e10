-- ===== src/Controller/Ingress/Downloads.antt =====
-- How a download link is routed: by the storage route, through the middleware of its group.
use mathlib.Core.List.Memᴰ
use mathlib.Core.List.Permᴰ
use mathlib.Core.List.{Memᴰ, Permᴰ}
use atom_operator.Prelude.{
  ℕ, String, ◌≡◌, refl, sym, ap, ap₂, some_injective, ◌∙◌, subst, inl, inr, Bool-cases, Option,
  none, some, List, [], ◌∷◌, length, map, All, str_eq, eq_iff,
}
use atom_operator.Prelude.Dict.{Dict, lookup}
use atom_operator.Prelude.Result.{ok, Returns, >>=-eq-ok, ok_injective}
use atom_operator.Text.{◌+s◌, join}
use atom_operator.Api.Model.{IngressRouteUrl, items}
use atom_operator.Api.V3.{Atom, DownloadLink, get_download_links, get_blob_prefix, get_blob_name}
use atom_operator.Api.V3.Blob.{blob_parts}
use atom_operator.Controller.Objects.{
  Object, MiddlewareSpec, ReplacePathRegex, Route, IngressRouteSpec, Reconciler,
}
use atom_operator.Controller.Labels.{set_owner}
use atom_operator.Controller.Groups.{Group, get_download_link_groups}
use atom_operator.Controller.Groups.Numbers.{index_of_Numbered}
use atom_operator.Controller.Groups.Files.{files_at_inverse, files_with-mem}
use atom_operator.Controller.Groups.Laws.{groups-Returns_iff, groups_lem}
use atom_operator.Controller.Middleware.{
  download_link_name, urls_or_base, get_download_link_regex, mutate_download_link_middleware,
}
use atom_operator.Controller.Ingress.{
  azure_storage_rule, download_middlewares, mutate_ingress_route,
}
use atom_operator.Controller.Ingress.Sorting.{sort_names-perm}
use atom_operator.Controller.Ingress.Order.{
  All-perm, index_or_zero, names_from, ref_name, refs-ok, download_middlewares_lem,
}
use atom_operator.Controller.Ingress.Routes.{
  matches, get_match_rule_lem, reached_at, route_urls, storage-mem, routed,
}

All-at {ℓ κ} : {A : Type ℓ} (P : A → Type κ) {x : A} (xs : List A) → All P xs → Memᴰ x xs → P x
All-at P [] h m = absurd (Memᴰ.not-nil m)
All-at P (y ∷ ys) (h, hs) (Memᴰ.head e) = subst P (sym e) h
All-at P (y ∷ ys) (h, hs) (Memᴰ.tail m) = All-at P ys hs m

All-from {ℓ κ} :
    {A : Type ℓ} (P : A → Type κ) (xs : List A) → ((x : A) → Memᴰ x xs → P x) → All P xs
All-from P [] h = tt
All-from P (x ∷ xs) h = (h x (Memᴰ.head refl), All-from P xs (λ y m. h y (Memᴰ.tail m)))

-- A permutation has the same items.
perm-mem {ℓ} : {A : Type ℓ} {x : A} {xs ys : List A} → Permᴰ xs ys → Memᴰ x xs → Memᴰ x ys
perm-mem {xs} {ys} p m =
    All-at (λ y. Memᴰ y ys) xs (All-perm _ (Permᴰ.symm p) (All-from _ ys (λ y h. h))) m

lookup-mem : (m : Dict Group) (p : String) {g : Group} → lookup p m ≡ some g → Memᴰ (p, g) m
unfolding lookup
lookup-mem [] p e = absurd (cc)
lookup-mem ((j, v) ∷ m) p e = elim (Bool-cases (str_eq j p)) [
  | inl same ↦ Memᴰ.head (
      ap₂ (λ (a : String) (b : Group). (a, b)) (sym ((eq_iff j p).0 same))
        (some_injective (sym (rw same at e))))
  | inr other ↦ Memᴰ.tail (lookup-mem m p (rw (other, lookup) at e))
]

prefix_spells :
    (l : DownloadLink) (p : String)
    → get_blob_prefix l ≡ ok p
    → p +s "/" +s get_blob_name l ≡ l.blob_path
prefix_spells l p e = elim (blob_parts l) [
  | inl (q, f, spelled, _) ↦
      subst (λ x. x +s "/" +s get_blob_name l ≡ l.blob_path) (ok_injective (sym f ∙ e)) spelled
  | inr (f, _, _) ↦ absurd (cc)
]

module _ {URL : Type 0} (r : Reconciler URL) (atom : Atom URL) where
  -- The middleware of the group takes, as regular expression, one of the paths of the URLs, then
  -- `/downloads/` and one of the files, and replaces what it matches by the prefix and the second
  -- group, which is the file.
  abbrev pub Replaces : String → List String → Type 0
  Replaces prefix files =
      (m : Object MiddlewareSpec) (out : Object MiddlewareSpec)
      → mutate_download_link_middleware r atom prefix files m ≡ ok out
      → (rule : ReplacePathRegex) × (out.spec.replace_path_regex ≡ some rule)
        × (rule.regex
            ≡ "^("
              +s join (map r.urls.path (route_urls atom)) "|"
              +s ")/downloads/"
              +s "("
              +s join files "|"
              +s ")")
        × (rule.replacement ≡ "/" +s prefix +s "/$2")

  paths_lem :
      (given : Option (List (IngressRouteUrl URL)))
      → map (λ (u : IngressRouteUrl URL). r.urls.path u.url) (urls_or_base (items given) atom)
        ≡ map r.urls.path (reached_at atom given)
  unfolding reached_at urls_or_base
  paths_lem none = refl
  paths_lem (some []) = refl
  paths_lem (some (u ∷ us)) = sym (map-map (u ∷ us))
    where
      map-map :
          (vs : List (IngressRouteUrl URL))
          → map r.urls.path (map (λ (v : IngressRouteUrl URL). v.url) vs)
            ≡ map (λ (v : IngressRouteUrl URL). r.urls.path v.url) vs
      map-map [] = refl
      map-map (v ∷ vs) = ap (λ l. r.urls.path v.url ∷ l) (map-map vs)

  Replaces_lem : (prefix : String) (files : List String) → Replaces prefix files
  unfolding mutate_download_link_middleware get_download_link_regex
  Replaces_lem prefix files m out h =
      let (head, _, e) = >>=-eq-ok (set_owner r "Middleware" atom _) _ h in
      (
        _,
        ap (λ (o : Object MiddlewareSpec). o.spec.replace_path_regex) (sym (ok_injective e)),
        ap
            (λ (paths : List String).
              "^(" +s join paths "|" +s ")/downloads/" +s "(" +s join files "|" +s ")")
            (paths_lem atom.spec.ingress_route_urls),
        refl,
      )

  -- The link's file stands in the group of the link's prefix; prefix and name spell the path of the
  -- blob; the middleware of the group replaces a path with one of the files by the prefix and the
  -- file; and at each URL a storage route for paths below the downloads refers to that middleware.
  pub record IsRouted (routes : List Route) (m : Dict Group) (l : DownloadLink) : Type 0 where
    pub prefix : String
    pub group : Group
    pub index : ℕ
    pub grouped : lookup prefix m ≡ some group
    pub numbered : group.index ≡ some index
    pub listed : Memᴰ (get_blob_name l) group.files
    pub spelled : prefix +s "/" +s get_blob_name l ≡ l.blob_path
    pub replaced : Replaces prefix group.files
    pub reached :
        All
          (λ u.
            (route : Route) × Memᴰ route routes
            × (route.match_rule
                ≡ matches r.urls (r.urls.join_path u ("downloads/" ∷ [])) "PathPrefix")
            × Memᴰ (download_link_name atom index) route.middlewares)
          (route_urls atom)

module _ {URL : Type 0} (r : Reconciler URL) (order : Dict Group → List (String × Group))
    (any : (m : Dict Group) → Permᴰ m (order m)) (atom : Atom URL) where
  -- The middleware with this index is among the references of the storage routes.
  reference-mem :
      {m : Dict Group} {refs : List String} (p : String) (g : Group) (i : ℕ)
      → get_download_link_groups (get_download_links atom) ≡ ok m
      → download_middlewares order atom ≡ ok refs
      → lookup p m ≡ some g
      → g.index ≡ some i
      → Memᴰ (download_link_name atom i) refs
  unfolding ref_name index_or_zero
  reference-mem {m} {refs} p g i grouped made there index =
      let numbered = (groups_lem _ grouped).0 in
      let named : Memᴰ (download_link_name atom i) (map (ref_name atom) m) =
        Memᴰ.cast (ap (λ o. download_link_name atom (index_or_zero o)) (sym index))
          (Memᴰ.map (ref_name atom) (lookup-mem m p there)) in
      let counted = subst (Memᴰ (download_link_name atom i)) (refs-ok atom 0 m numbered).1 named in
      subst (Memᴰ (download_link_name atom i))
        (ok_injective (sym (download_middlewares_lem atom order any grouped) ∙ made))
        (perm-mem (sort_names-perm (names_from atom 0 (length m))) counted)

  storage_rule-mem :
      (u : URL) (refs : List String) (name : String)
      → Memᴰ name refs
      → ((azure_storage_rule r.urls atom u refs).match_rule
          ≡ matches r.urls (r.urls.join_path u ("downloads/" ∷ [])) "PathPrefix")
        × Memᴰ name (azure_storage_rule r.urls atom u refs).middlewares
  unfolding azure_storage_rule
  storage_rule-mem u refs name m = ((get_match_rule_lem r.urls _).1, Memᴰ.tail m)

  -- Where an ingress route was made, and so the download links were grouped: the file of each
  -- download link stands in the group of its prefix, prefix and name spell the path of its blob, the
  -- middleware of the group replaces what its regular expression, of the paths of the URLs and of the
  -- files of the group, matches by the prefix and the file, and at each URL of the resource a storage
  -- route for paths below the downloads refers to that middleware. Which middleware acts on a path
  -- that several match is not stated.
  pub links-IsRouted :
      (i : Object IngressRouteSpec) {route : Object IngressRouteSpec} {m : Dict Group}
      → mutate_ingress_route r order atom i ≡ ok route
      → get_download_link_groups (get_download_links atom) ≡ ok m
      → (l : DownloadLink) → Memᴰ l (get_download_links atom)
      → IsRouted r atom route.spec.routes m l
  links-IsRouted i {route} {m} h grouped l in_links =
      let (numbered, _, files) = groups_lem (get_download_links atom) grouped in
      let (p, prefix) =
        All-at (λ k. Returns (get_blob_prefix k)) (get_download_links atom)
          ((groups-Returns_iff (get_download_links atom)).0 (m, grouped)) in_links in
      let (g, there, listed) =
        files_at_inverse m p (get_blob_name l)
          (subst (Memᴰ (get_blob_name l)) (sym (files p)) (files_with-mem _ l p in_links prefix)) in
      let (n, index) = index_of_Numbered 0 m p g there numbered in
      record {
        prefix = p;
        group = g;
        index = n;
        grouped = there;
        numbered = index;
        listed = listed;
        spelled = prefix_spells l p prefix;
        replaced = Replaces_lem r atom p g.files;
        reached = All-from _ (route_urls atom) λ u m_u.
            let (refs, made, storage) =
              routed r order atom i h u m_u (azure_storage_rule r.urls atom u)
                (λ refs. storage-mem r.urls atom refs u) in
            let (rule, through) =
              storage_rule-mem u refs (download_link_name atom n)
                (reference-mem p g n grouped made there index) in
            (azure_storage_rule r.urls atom u refs, storage, rule, through);
      }
