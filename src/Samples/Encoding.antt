-- ===== src/Samples/Encoding.antt =====
-- A digest of tree nodes without collisions: the node, written out.
use reflake.Prelude.{Str, ℕ, List, [], ◌∷◌, ◌++◌, Option, none, some, ◌≡◌, refl, ap, length, arith}
use reflake.Trees.Entry.{Entry, EntryKind, kind_text, kind_text_injective}
use reflake.Trees.Writer.Stored.{IsInjective}

encode_text : Str → Str → Str
encode_text s rest = length s ∷ (s ++ rest)

append_same : (s s' r r' : Str) → length s ≡ length s' → s ++ r ≡ s' ++ r' → (s ≡ s') × (r ≡ r')
append_same [] [] r r' n e = (refl, e)
append_same [] (x ∷ s') r r' n e = absurd (omega arith)
append_same (x ∷ s) [] r r' n e = absurd (omega arith)
append_same (x ∷ s) (y ∷ s') r r' n e =
    let (p, q) = append_same s s' r r' (omega arith) (cc e) in
    let head : x ≡ y = cc e in (cc (p, head), q)

encode_text_injective :
    (s s' r r' : Str) → encode_text s r ≡ encode_text s' r' → (s ≡ s') × (r ≡ r')
unfolding encode_text
encode_text_injective s s' r r' e =
    let n : length s ≡ length s' = cc e in
    let t : s ++ r ≡ s' ++ r' = cc e in append_same s s' r r' n t

encode_option : Option Str → Str → Str
encode_option none rest = 0 ∷ rest
encode_option (some s) rest = 1 ∷ encode_text s rest

encode_option_injective :
    (o o' : Option Str) (r r' : Str) → encode_option o r ≡ encode_option o' r' → (o ≡ o') × (r ≡ r')
unfolding encode_option
encode_option_injective none none r r' e = (refl, cc e)
encode_option_injective none (some s') r r' e = absurd (different (cc e))
  where
    different : ◌≡◌ {A = ℕ} 0 1 → ⊥
    different h = omega arith
encode_option_injective (some s) none r r' e = absurd (different (cc e))
  where
    different : ◌≡◌ {A = ℕ} 1 0 → ⊥
    different h = omega arith
encode_option_injective (some s) (some s') r r' e =
    let t : encode_text s r ≡ encode_text s' r' = cc e in
    let (p, q) = encode_text_injective s s' r r' t in (ap some p, q)

encode_entry : Entry → Str → Str
encode_entry e rest = encode_text e.path (
    encode_text (kind_text e.kind) (
      encode_text e.hash (
        e.size
        ∷ e.mtime_ns
        ∷ encode_option e.source_uri (encode_option e.footer (encode_option e.source_etag rest)))))

encode_entry_injective :
    (e e' : Entry) (r r' : Str) → encode_entry e r ≡ encode_entry e' r' → (e ≡ e') × (r ≡ r')
unfolding encode_entry
encode_entry_injective e e' r r' h =
    let (p, h1) = encode_text_injective e.path e'.path _ _ h in
    let (k, h2) = encode_text_injective (kind_text e.kind) (kind_text e'.kind) _ _ h1 in
    let (d, h3) = encode_text_injective e.hash e'.hash _ _ h2 in
    let size : e.size ≡ e'.size = cc h3 in
    let mtime : e.mtime_ns ≡ e'.mtime_ns = cc h3 in
    let (u, h5) = encode_option_injective e.source_uri e'.source_uri _ _ (cc h3) in
    let (f, h6) = encode_option_injective e.footer e'.footer _ _ h5 in
    let (t, h7) = encode_option_injective e.source_etag e'.source_etag r r' h6 in
    (same (kind_text_injective e.kind e'.kind k) p d size mtime u f t, h7)
  where
    entry : Str → EntryKind → Str → ℕ → ℕ → Option Str → Option Str → Option Str → Entry
    entry p k h s m u f t = record {
      path = p;
      kind = k;
      hash = h;
      size = s;
      mtime_ns = m;
      source_uri = u;
      footer = f;
      source_etag = t;
    }

    same :
        e.kind ≡ e'.kind
        → e.path ≡ e'.path
        → e.hash ≡ e'.hash
        → e.size ≡ e'.size
        → e.mtime_ns ≡ e'.mtime_ns
        → e.source_uri ≡ e'.source_uri
        → e.footer ≡ e'.footer
        → e.source_etag ≡ e'.source_etag
        → e ≡ e'
    same k p h s m u f t =
        let it : entry e.path e.kind e.hash e.size e.mtime_ns e.source_uri e.footer e.source_etag
            ≡ entry e'.path e'.kind e'.hash e'.size e'.mtime_ns e'.source_uri e'.footer
                e'.source_etag =
          cc (k, p, h, s, m, u, f, t) in
        it

unfoldable pub encode : List Entry → Str
unfolding encode_entry encode_text encode_option
encode [] = []
encode (e ∷ es) = encode_entry e (encode es)

pub encode-IsInjective : IsInjective encode
unfolding encode
encode-IsInjective [] [] h = refl
encode-IsInjective [] (e ∷ es) h = absurd (cc h)
encode-IsInjective (e ∷ es) [] h = absurd (cc h)
encode-IsInjective (e ∷ es) (e' ∷ es') h =
    let (p, q) = encode_entry_injective e e' (encode es) (encode es') h in
    let r = encode-IsInjective es es' q in cc (p, r)
