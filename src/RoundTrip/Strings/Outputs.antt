-- ===== src/RoundTrip/Strings/Outputs.antt =====
-- What internal/proxy restores of a text, put together from its pieces.
use shinel.Base.{ℕ, ◌≡◌, refl, sym, ap, ◌∷◌, ◌++◌, some}
use shinel.Base.Bytes.{Bytes}
use shinel.Base.Maps.{Map, lookup}
use shinel.Proxy.Escape.{json_escape}
use shinel.Proxy.Escape.Reader.{plain, prepend, read_string}
use shinel.Proxy.Stream.{resolve}
use shinel.Proxy.Stream.Positions.{NoBracket, Restores-quiet}
use shinel.Proxy.Stream.Spec.{NoTokenHere, Restores}
use shinel.Proxy.Token.{IsToken}
use shinel.RoundTrip.{AllShort, Serves, resolve_known, resolve_keeps}
use shinel.Vault.{Reply}

module _ {V : Type 0} (get_mapping : V → Bytes → V × Reply) (m : Map Bytes) {P : V → Type 0}
    (serves : Serves get_mapping m P) (short : AllShort m) where
  -- In every state in which the vault answers for the mapping, the text is restored to one that has
  -- a property.
  abbrev pub Shown : (Bytes → Type 0) → Bytes → Type 0
  Shown C text =
      (v : V) → P v → (last : V) × (out : Bytes) × Restores get_mapping last v text out × C out

  -- A text that stands in a string, with what is read behind it.
  abbrev pub Reads : Bytes → (Bytes → Type 0) → Bytes → Type 0
  Reads t C out = (o : Bytes) × C o × (read_string plain out ≡ prepend t (read_string plain o))

  pub Shown-quiet :
      {C : Bytes → Type 0} {u text : Bytes}
      → NoBracket u
      → Shown C text
      → Shown (λ out. (o : Bytes) × C o × (out ≡ u ++ o)) (u ++ text)
  Shown-quiet {u = u} q shown v p =
      let (last, out, r, c) = shown v p in (last, u ++ out, Restores-quiet q r, (out, c, refl))

  pub Shown-byte :
      {C : Bytes → Type 0} {b : ℕ} {text : Bytes}
      → NoTokenHere (b ∷ text)
      → Shown C text
      → Shown (λ out. (o : Bytes) × C o × (out ≡ b ∷ o)) (b ∷ text)
  Shown-byte {b = b} n shown v p =
      let (last, out, r, c) = shown v p in (last, b ∷ out, Restores.byte n r, (out, c, refl))

  pub Shown-map :
      {C D : Bytes → Type 0} {text : Bytes}
      → ((out : Bytes) → C out → D out)
      → Shown C text
      → Shown D text
  Shown-map f shown v p = let (last, out, r, c) = shown v p in (last, out, r, f out c)

  pub Shown-token :
      {C : Bytes → Type 0} {t x text : Bytes}
      → IsToken t
      → lookup t m ≡ some x
      → Shown C text
      → Shown (λ out. (o : Bytes) × C o × (out ≡ json_escape x ++ o)) (t ++ text)
  Shown-token {t = t} {x} i l shown v p =
      let (last, out, r, c) =
        shown (resolve get_mapping v t).0 (resolve_keeps get_mapping m v t serves p) in
      (
        last,
        json_escape x ++ out,
        Restores.token i (short t x l) refl r
            (ap (λ y. y ++ out) (sym (resolve_known get_mapping v t x (serves.answers v t x p l)))),
        (out, c, refl),
      )
