-- ===== src/Analyzer/Json/Walk.antt =====
-- What the walk of internal/analyzer/json.go leaves of a tree.
use shinel.Base.{
  ◌≡◌, refl, sym, ◌∙◌, Bool, true, false, List, some, Bool-cases, inl, inr, ◌⊎◌, Option, none,
}
use shinel.Base.Bytes.{Bytes, codes}
use shinel.Base.Maps.{Map}
use shinel.Base.Sort.{All}
use shinel.Analyzer.Json.{
  Json, null, boolean, number, string, array, object, Items, no_items, item, Fields, no_fields,
  field, taken_whole, text_of, walk_json, walk_items, walk_fields, is_scalar, encoded,
  anonymize_tree, anonymize_json, anonymize_parsed, anonymize,
}
use shinel.Analyzer.Json.Masked.{
  MaskedJson, same_null, same_boolean, same_number, masked_string, masked_array, masked_object,
  MaskedItems, same_items, masked_item, MaskedFields, same_fields, masked_field, taken_field,
  taken_whole-takes, taken_whole-string,
}
use shinel.Analyzer.Session.{Session, new_session, token_for}
use shinel.Analyzer.Session.Sound.{
  IsSound, new_session-IsSound, token_for-lookup, token_for-keeps, token_for-IsToken,
  token_for-IsSound,
}
use shinel.Analyzer.Span.{Span}
use shinel.Analyzer.Sweep.{anonymize_spans}
use shinel.Analyzer.Sweep.Hides.{Hidden, Keeps, anonymize_spans-Hidden}
use shinel.Analyzer.Sweep.Masks.{Masks, done, keep, token, Fits, anonymize_spans-Swept}
use shinel.Proxy.Token.{Letters}
use shinel.Proxy.Token.Tests.{Letters-of_all_upper}

Masks-Keeps :
    {m m' : Map Bytes} {text masked shown : Bytes}
    → Keeps m m'
    → Masks m text masked shown
    → Masks m' text masked shown
Masks-Keeps k done = done
Masks-Keeps k (keep h) = keep (Masks-Keeps k h)
Masks-Keeps k (token l i t o s h) = token (k _ _ l) i t o s (Masks-Keeps k h)

-- A step from one session to a later one, which makes something that is right for every mapping
-- with the later one's entries.
record Goes (sess sess' : Session) (P : Map Bytes → Type 0) : Type 0 where
  sound : IsSound sess'
  keeps : Keeps sess.mapping sess'.mapping
  holds : (m : Map Bytes) → Keeps sess'.mapping m → P m

password-Letters : Letters (codes "PASSWORD")
password-Letters = Letters-of_all_upper b'P' (codes "ASSWORD") refl

-- What goes out for a text, by what it parses to, with the mapping.
abbrev pub Sent :
    (Bytes → Bytes)
    → (Bytes → List Span)
    → (Json → Option Bytes)
    → Bytes
    → Option Json
    → Map Bytes × Bytes
    → Type 0
Sent to_lower found marshal text none (m, sent) = Hidden m (found text) text sent
Sent to_lower found marshal text (some v) (m, sent) =
    (v' : Json) × (sent ≡ encoded (marshal v'))
    × (MaskedJson to_lower found m v v' ⊎ ((is_scalar v ≡ true) × (v' ≡ v)))

module _ (to_lower : Bytes → Bytes) (detect : Bytes → List Span)
    (fit : (text : Bytes) → All (Fits text) (detect text)) where
  abbrev mask : Bytes → Session → Session × Bytes
  mask text sess = anonymize_spans text (detect text) sess

  mutual
    unfolding walk_json

    Goes-json :
        (v : Json) (sess : Session)
        → IsSound sess
        → let r = walk_json to_lower mask v sess in
          Goes sess r.0 (λ m. MaskedJson to_lower detect m v r.1)
    Goes-json null sess h = record { sound = h; keeps = λ t v e. e; holds = λ m k. same_null }
    Goes-json (boolean b) sess h = record {
      sound = h;
      keeps = λ t v e. e;
      holds = λ m k. same_boolean b;
    }
    Goes-json (number n) sess h = record {
      sound = h;
      keeps = λ t v e. e;
      holds = λ m k. same_number n;
    }
    Goes-json (string s) sess h =
        let w = anonymize_spans-Swept s (detect s) (fit s) h in
        record {
          sound = w.sound;
          keeps = w.keeps;
          holds = λ m k.
              masked_string {shown = w.shown} (Masks-Keeps k (rw w.writes w.masks))
                (anonymize_spans-Hidden s (detect s) (fit s) h m k);
        }
    Goes-json (array is) sess h =
        let g = Goes-items is sess h in
        record { sound = g.sound; keeps = g.keeps; holds = λ m k. masked_array (g.holds m k) }
    Goes-json (object fs) sess h =
        let g = Goes-fields fs sess h in
        record { sound = g.sound; keeps = g.keeps; holds = λ m k. masked_object (g.holds m k) }

    Goes-items :
        (is : Items) (sess : Session)
        → IsSound sess
        → let r = walk_items to_lower mask is sess in
          Goes sess r.0 (λ m. MaskedItems to_lower detect m is r.1)
    Goes-items no_items sess h = record { sound = h; keeps = λ t v e. e; holds = λ m k. same_items }
    Goes-items (item v is) sess h =
        let g = Goes-json v sess h in
        let gs = Goes-items is (walk_json to_lower mask v sess).0 g.sound in
        record {
          sound = gs.sound;
          keeps = λ t x e. gs.keeps t x (g.keeps t x e);
          holds = λ m k. masked_item (g.holds m (λ t x e. k t x (gs.keeps t x e))) (gs.holds m k);
        }

    Goes-fields :
        (fs : Fields) (sess : Session)
        → IsSound sess
        → let r = walk_fields to_lower mask fs sess in
          Goes sess r.0 (λ m. MaskedFields to_lower detect m fs r.1)
    Goes-fields no_fields sess h = record {
      sound = h;
      keeps = λ t v e. e;
      holds = λ m k. same_fields;
    }
    Goes-fields (field k v fs) sess h = elim (Bool-cases (taken_whole to_lower k v)) [
      | inl y ↦ rw y (
          let kind = codes "PASSWORD" in
          let sess' = (token_for sess kind (text_of v)).0 in
          let gs = Goes-fields fs sess' (token_for-IsSound kind (text_of v) password-Letters h) in
          record {
            sound = gs.sound;
            keeps =
                λ t x e. gs.keeps t x (token_for-keeps kind (text_of v) password-Letters h t x e);
            holds = λ m q.
                taken_field k (sym (taken_whole-takes to_lower k v) ∙ y)
                  (taken_whole-string to_lower k v y)
                  (q _ _ (gs.keeps _ _ (token_for-lookup kind (text_of v) password-Letters h)))
                  (token_for-IsToken kind (text_of v) password-Letters h) (gs.holds m q);
          })
      | inr n ↦ rw n (
          let g = Goes-json v sess h in
          let gs = Goes-fields fs (walk_json to_lower mask v sess).0 g.sound in
          record {
            sound = gs.sound;
            keeps = λ t x e. gs.keeps t x (g.keeps t x e);
            holds = λ m q.
                masked_field k (sym (taken_whole-takes to_lower k v) ∙ n)
                  (g.holds m (λ t x e. q t x (gs.keeps t x e))) (gs.holds m q);
          })
    ]

  -- Where the detectors find spans that fit, the walk leaves a tree of the same shape with the same
  -- keys, numbers and truth values, in which every string is masked, or taken as a whole, under the
  -- tokens of the mapping that it ends with.
  pub walk_json-Masked :
      (v : Json) (sess : Session)
      → IsSound sess
      → let r = walk_json to_lower mask v sess in
        MaskedJson to_lower detect r.0.mapping v r.1 × IsSound r.0
  walk_json-Masked v sess h = let g = Goes-json v sess h in (g.holds _ (λ t x e. e), g.sound)

  anonymize_tree-Sent :
      (marshal : Json → Option Bytes) (text : Bytes) (v : Json) (b : Bool)
      → is_scalar v ≡ b
      → Sent to_lower detect marshal text
          (some v)
          (anonymize_tree to_lower mask marshal new_session v b)
  unfolding anonymize_tree
  anonymize_tree-Sent marshal text v true e = (v, refl, inr (e, refl))
  anonymize_tree-Sent marshal text v false e =
      let g = Goes-json v new_session new_session-IsSound in
      ((walk_json to_lower mask v new_session).1, refl, inl (g.holds _ (λ t x h. h)))

  anonymize_parsed-Sent :
      (marshal : Json → Option Bytes) (text : Bytes) (parsed : Option Json)
      → Sent to_lower detect marshal text parsed
          (anonymize_parsed to_lower mask marshal text parsed)
  unfolding anonymize_parsed anonymize_json
  anonymize_parsed-Sent marshal text none =
      anonymize_spans-Hidden text (detect text) (fit text) new_session-IsSound _ (λ t v e. e)
  anonymize_parsed-Sent marshal text (some v) =
      anonymize_tree-Sent marshal text v (is_scalar v) refl

  -- Where the detectors find spans that fit, a text that is no JSON value goes out masked under the
  -- tokens of the mapping, and a JSON value as the encoding of a tree of the same shape with every
  -- string so masked, but for a bare scalar, which is encoded as it is.
  pub anonymize-Sent :
      (parse : Bytes → Option Json) (marshal : Json → Option Bytes) (text : Bytes)
      → Sent to_lower detect marshal text (parse text) (anonymize to_lower mask parse marshal text)
  unfolding anonymize
  anonymize-Sent parse marshal text = anonymize_parsed-Sent marshal text (parse text)
