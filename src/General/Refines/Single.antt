-- ===== src/General/Refines/Single.antt =====
-- One case of the switch does to an API what the machine of `Contract` says.
use core_swag.Base.{
  ◌≡◌, refl, ap, sym, ◌∙◌, Bool, true, false, List, [], ◌∷◌, Option, none, some, arith, inl, inr,
  Bool-cases, Option-cases,
}
use mathlib.Core.List.{map-append}
use core_swag.Base.Text.{Text, codes, text_eq, has_prefix}
use core_swag.General.{
  Api, Tag, InfoField, version, title, terms_of_service, description, contact_name, contact_email,
  contact_url, license_name, license_url, set_swagger_info, Service, GeneralError,
}
use core_swag.General.Attributes.{
  get_markdown_for_tag, Markdown, content, failed, parse_extension, parse_tag_extension,
  set_extension,
}
use core_swag.General.Security.{parse_security, Requirement}
use core_swag.General.Cases.{
  Run, Step, go, return, Case, info, described, described_by_file, host, base_path, accept, produce,
  schemes, tag_name, tag_description, tag_description_file, tag_docs_url, tag_docs_description,
  definition, security, docs_description, docs_url, other, apply_case, apply_tag, on_tag,
  on_pointer, pointer_of, describe_by_file, describe_tag_by_file, add_security, change_last,
  last_tag, new_tag, returned, keep_tag,
}
use core_swag.General.Contract.{names, view, update, stops, reads, mode_of}

-- What a step at a line of a case and value does to the view.
unfoldable pub Refines : Case → Text → Run → Step → Type 0
Refines c v r (go r') = (mode_of c ≡ reads) × (view r'.api ≡ update c v (view r.api))
Refines c v r (return api none) = (mode_of c ≡ stops) × (view api ≡ view r.api)
Refines c v r (return api (some e)) = Unit {0}

-- Any case but a security definition
abbrev pub IsLine : Case → Type 0
IsLine (definition kind) = ⊥
IsLine c = Unit {0}

names-change_last :
    (f : Tag → Tag) (tags : List Tag)
    → ((t : Tag) → last_tag tags ≡ some t → (f t).name ≡ t.name)
    → names (change_last f tags) ≡ names tags
unfolding change_last last_tag
names-change_last f [] h = refl
names-change_last f (t ∷ []) h = rw (h t refl)
names-change_last f (t ∷ u ∷ ts) h = ap (◌∷◌ t.name) (names-change_last f (u ∷ ts) h)

name-parse_tag_extension : (a v : Text) (t : Tag) → (parse_tag_extension a v t).0.name ≡ t.name
unfolding parse_tag_extension
name-parse_tag_extension a v t = ground arith

module _ (s : Service) (v a : Text) (r : Run) where
  info-Refines : (f : InfoField) → Refines (info f) v r (apply_case s (info f) a v r)
  unfolding Refines apply_case mode_of update view
  info-Refines version = (refl, refl)
  info-Refines title = (refl, refl)
  info-Refines terms_of_service = (refl, refl)
  info-Refines description = (refl, refl)
  info-Refines contact_name = (refl, refl)
  info-Refines contact_email = (refl, refl)
  info-Refines contact_url = (refl, refl)
  info-Refines license_name = (refl, refl)
  info-Refines license_url = (refl, refl)

  -- A change of the last tag that keeps its name
  tag-same :
      (t : Tag) (f : Tag → Tag)
      → last_tag r.api.tags ≡ some t
      → (f t).name ≡ t.name
      → view (record r.api { tags = change_last f r.api.tags }) ≡ view r.api
  unfolding view
  tag-same t f last same =
      let kept : names (change_last f r.api.tags) ≡ names r.api.tags =
        names-change_last f r.api.tags (λ u e. let q : u ≡ t = ground arith in rw q same) in
      rw kept

  apply_tag-Refines :
      (c : Case) (t : Tag)
      → mode_of c ≡ reads
      → update c v (view r.api) ≡ view r.api
      → last_tag r.api.tags ≡ some t
      → Refines c v r (apply_tag s c a v r t)
  unfolding Refines apply_tag describe_tag_by_file
  apply_tag-Refines tag_description t m u last = (m, tag-same t _ last refl ∙ sym u)
  apply_tag-Refines tag_description_file t m u last =
      described_tag (get_markdown_for_tag s.directory t.name)
    where
      described_tag :
          (text : Markdown) → Refines tag_description_file v r (describe_tag_by_file s a r text)
      described_tag (content x) = (m, tag-same t _ last refl ∙ sym u)
      described_tag (failed e) = tt
  apply_tag-Refines tag_docs_url t m u last = (m, tag-same t _ last refl ∙ sym u)
  apply_tag-Refines tag_docs_description t m u last = elim (Option-cases t.external_docs) [
    | inl without ↦ rw (without, Refines) tt
    | inr (d, docs) ↦ rw (docs, Refines) (m, tag-same t _ last refl ∙ sym u)
  ]
  apply_tag-Refines other t m u last =
      extended (parse_tag_extension a v t) (name-parse_tag_extension a v t)
    where
      extended :
          (p : Tag × Option GeneralError) → p.0.name ≡ t.name → Refines other v r (keep_tag a r p)
      extended (t', none) same = (m, tag-same t _ last same ∙ sym u)
      extended (t', some e) same = tt
  apply_tag-Refines c t m u last = (m, sym u)

  on_pointer-Refines :
      (c : Case) (tagged : Bool)
      → mode_of c ≡ reads
      → update c v (view r.api) ≡ view r.api
      → Refines c v r (on_pointer s c a v r (pointer_of tagged r.api.tags))
  unfolding Refines on_pointer pointer_of
  on_pointer-Refines c false m u = (m, sym u)
  on_pointer-Refines c true m u = elim (Option-cases (last_tag r.api.tags)) [
    | inl empty ↦ rw empty (m, sym u)
    | inr (t, last) ↦ rw last (apply_tag-Refines c t m u last)
  ]

  on_tag-Refines :
      (c : Case)
      → mode_of c ≡ reads
      → update c v (view r.api) ≡ view r.api
      → Refines c v r (on_tag s c a v r)
  unfolding on_tag
  on_tag-Refines c m u = on_pointer-Refines c r.tagged m u

  view-set_description : (t : Text) → view (set_swagger_info description t r.api) ≡ view r.api
  unfolding view set_swagger_info
  view-set_description t = refl

  described-Refines : Refines described v r (apply_case s described a v r)
  unfolding apply_case
  described-Refines = elim (Bool-cases (text_eq r.previous a)) [
    | inl again ↦ rw again (unfold Refines mode_of update in (refl, view-set_description _))
    | inr first ↦ rw first (unfold Refines mode_of update in (refl, view-set_description _))
  ]

  described_by_file-Refines : Refines described_by_file v r (apply_case s described_by_file a v r)
  unfolding apply_case
  described_by_file-Refines = by_file (get_markdown_for_tag s.directory (codes "api"))
    where
      by_file : (text : Markdown) → Refines described_by_file v r (describe_by_file s a r text)
      by_file (content x) =
          unfold Refines mode_of update describe_by_file in (refl, view-set_description _)
      by_file (failed e) = unfold Refines describe_by_file in tt

  returned-Refines :
      (p : Api × Option GeneralError) → view p.0 ≡ view r.api → Refines other v r (returned r p a)
  unfolding Refines mode_of update
  returned-Refines (api, none) same = (refl, same)
  returned-Refines (api, some e) same = tt

  view-parse_extension : view (parse_extension s a v r.api).0 ≡ view r.api
  unfolding parse_extension set_extension view
  view-parse_extension = ground arith

  other-Refines : Refines other v r (apply_case s other a v r)
  unfolding apply_case
  other-Refines = elim (Bool-cases (has_prefix a (codes "@x-"))) [
    | inl x ↦ rw x (returned-Refines (parse_extension s a v r.api) view-parse_extension)
    | inr no_x ↦ elim (Bool-cases (has_prefix a (codes "@tag.x-"))) [
      | inl tag ↦
          rw (no_x, tag) (on_tag-Refines other (unfold mode_of in refl) (unfold update in refl))
      | inr no_tag ↦ rw (no_x, no_tag) (unfold Refines mode_of update in (refl, refl))
    ]
  ]

  stop-Refines :
      (c : Case) (api : Api) (e : Option GeneralError)
      → mode_of c ≡ stops
      → view api ≡ view r.api
      → Refines c v r (return api e)
  unfolding Refines
  stop-Refines c api none m same = (m, same)
  stop-Refines c api (some e) m same = tt

  security-Refines : (m : Option Requirement) → Refines security v r (add_security s a r m)
  unfolding Refines add_security mode_of update view
  security-Refines none = tt
  security-Refines (some m) = (refl, refl)

  tag_name-Refines : Refines tag_name v r (apply_case s tag_name a v r)
  unfolding Refines apply_case mode_of update view new_tag
  tag_name-Refines = (refl, rw (map-append))

  -- One line changes the view as the machine does.
  pub apply_case-Refines : (c : Case) → IsLine c → Refines c v r (apply_case s c a v r)
  apply_case-Refines (info f) h = info-Refines f
  apply_case-Refines described h = described-Refines
  apply_case-Refines described_by_file h = described_by_file-Refines
  apply_case-Refines host h = unfold Refines apply_case mode_of update view in (refl, refl)
  apply_case-Refines base_path h = unfold Refines apply_case mode_of update view in (refl, refl)
  apply_case-Refines accept h =
      unfold apply_case in stop-Refines accept _ _ (unfold mode_of in refl) (unfold view in refl)
  apply_case-Refines produce h =
      unfold apply_case in stop-Refines produce _ _ (unfold mode_of in refl) (unfold view in refl)
  apply_case-Refines schemes h = unfold Refines apply_case mode_of update view in (refl, refl)
  apply_case-Refines tag_name h = tag_name-Refines
  apply_case-Refines security h = unfold apply_case in security-Refines (parse_security v)
  apply_case-Refines docs_description h =
      unfold Refines apply_case mode_of update view in (refl, refl)
  apply_case-Refines docs_url h = unfold Refines apply_case mode_of update view in (refl, refl)
  apply_case-Refines other h = other-Refines
  apply_case-Refines (definition kind) h = absurd h
  apply_case-Refines tag_description h =
      unfold apply_case in
      on_tag-Refines tag_description (unfold mode_of in refl) (unfold update in refl)
  apply_case-Refines tag_description_file h =
      unfold apply_case in
      on_tag-Refines tag_description_file (unfold mode_of in refl) (unfold update in refl)
  apply_case-Refines tag_docs_url h =
      unfold apply_case in
      on_tag-Refines tag_docs_url (unfold mode_of in refl) (unfold update in refl)
  apply_case-Refines tag_docs_description h =
      unfold apply_case in
      on_tag-Refines tag_docs_description (unfold mode_of in refl) (unfold update in refl)
