-- ===== src/RouterOs/Attributes.antt =====
-- `wordsToAttrs` and `parseInt` of apps/api/src/lib/routeros-api.ts: the `=key=value` words of a
-- reply as a map. A map is the list of its writes, the last one first.
use mikrotikbandwidthmonitor.Prelude.{
  ℕ, zero, suc, ◌<◌, ◌≡◌, ◌≢◌, refl, Option, none, some, List, [], ◌∷◌, ◌++◌, ◌==◌, if◌then◌else◌,
  Bool, true, false, ◌||◌, Bool-cases, inl, inr, sym, ◌∙◌, length, take, drop, All, arith,
  take-append_left,
}
use mikrotikbandwidthmonitor.Prelude.Bytes.{Text, codes, text_eq, text_eq_iff}

abbrev pub Attrs : Type 0
Attrs = List (Text × Text)

-- `attrs[key]` of a key that the prototype of objects has not; `none` is `undefined`.
unfoldable pub lookup : Text → Attrs → Option Text
lookup key [] = none
lookup key ((k, v) ∷ attrs) = if text_eq k key then some v else lookup key attrs

abbrev one_further : Option ℕ → Option ℕ
one_further none = none
one_further (some i) = some (suc i)

-- `word.indexOf('=', from)`, counted from the position at which `word` is cut; `none` is -1
unfoldable pub index_of_equals : Text → Option ℕ
index_of_equals [] = none
index_of_equals (c ∷ word) = if c == b'=' then some 0 else one_further (index_of_equals word)

-- The body of the loop, on a word behind its leading `=`: `eqIdx > 1` is that the key is not empty.
abbrev attribute_at : Text → Option ℕ → Option (Text × Text)
attribute_at word none = none
attribute_at word (some zero) = none
attribute_at word (some (suc i)) = some (take (suc i) word, drop (suc (suc i)) word)

abbrev pub attribute_behind : Text → Option (Text × Text)
attribute_behind word = attribute_at word (index_of_equals word)

unfoldable pub attribute : Text → Option (Text × Text)
unfolding index_of_equals
attribute [] = none
attribute (c ∷ word) = if c == b'=' then attribute_behind word else none

-- What every object inherits: a read of such a key finds it where the map has no value.
abbrev pub inherited : List Text
inherited =
    codes "__proto__"
    ∷ codes "constructor"
    ∷ codes "hasOwnProperty"
    ∷ codes "isPrototypeOf"
    ∷ codes "propertyIsEnumerable"
    ∷ codes "toLocaleString"
    ∷ codes "toString"
    ∷ codes "valueOf"
    ∷ codes "__defineGetter__"
    ∷ codes "__defineSetter__"
    ∷ codes "__lookupGetter__"
    ∷ codes "__lookupSetter__"
    ∷ []

unfoldable pub is_one_of : List Text → Text → Bool
is_one_of [] key = false
is_one_of (k ∷ ks) key = text_eq key k || is_one_of ks key

-- `attrs[key] = value`; a text that is assigned to `__proto__` is dropped.
unfoldable pub write : Option (Text × Text) → Attrs → Attrs
write none attrs = attrs
write (some (key, value)) attrs =
    if text_eq key (codes "__proto__") then attrs else (key, value) ∷ attrs

unfoldable pub words_to_attrs_from : Attrs → List Text → Attrs
unfolding attribute write
words_to_attrs_from attrs [] = attrs
words_to_attrs_from attrs (word ∷ words) = words_to_attrs_from (write (attribute word) attrs) words

unfoldable pub words_to_attrs : List Text → Attrs
unfolding words_to_attrs_from
words_to_attrs words = words_to_attrs_from [] words

-- `=key=value`
abbrev pub attribute_word : Text → Text → Text
attribute_word key value = b'=' ∷ (key ++ (b'=' ∷ value))

index_of_equals_behind :
    (key value : Text)
    → All (λ c. c ≢ b'=') key
    → index_of_equals (key ++ (b'=' ∷ value)) ≡ some (length key)
unfolding index_of_equals
index_of_equals_behind [] value h = refl
index_of_equals_behind (c ∷ key) value (hc, h) = ground (arith, index_of_equals_behind key value h)

drop_key : (key value : Text) → drop (suc (length key)) (key ++ (b'=' ∷ value)) ≡ value
drop_key [] value = refl
drop_key (c ∷ key) value = drop_key key value

attribute-attribute_word :
    (key value : Text)
    → 0 < length key
    → All (λ c. c ≢ b'=') key
    → attribute (attribute_word key value) ≡ some (key, value)
unfolding attribute
attribute-attribute_word [] value p h = elim p [ ]
attribute-attribute_word (c ∷ key) value p h = rw (
  index_of_equals_behind (c ∷ key) value h,
  take-append_left key (b'=' ∷ value),
  drop_key (c ∷ key) value,
)

words_to_attrs_from-append :
    (attrs : Attrs) (ws : List Text) (w : Text)
    → words_to_attrs_from attrs (ws ++ (w ∷ []))
      ≡ write (attribute w) (words_to_attrs_from attrs ws)
unfolding words_to_attrs_from
words_to_attrs_from-append attrs [] w = refl
words_to_attrs_from-append attrs (v ∷ ws) w =
    words_to_attrs_from-append (write (attribute v) attrs) ws w

proto_is_inherited :
    (key other : Text)
    → text_eq key (codes "__proto__") ≡ true
    → is_one_of inherited other ≡ false
    → text_eq key other ≡ false
unfolding is_one_of
proto_is_inherited key other p h = elim (Bool-cases (text_eq key other)) [
  | inr differ ↦ differ
  | inl same ↦
      let k = (text_eq_iff key (codes "__proto__")).0 p in
      let o = (text_eq_iff key other).0 same in
      let t : text_eq other (codes "__proto__") ≡ true =
        (text_eq_iff other (codes "__proto__")).1 (sym o ∙ k) in
      cc (rw (t, is_one_of) at h)
]

lookup-write :
    (key value other : Text) (attrs : Attrs)
    → is_one_of inherited other ≡ false
    → lookup other (write (some (key, value)) attrs)
      ≡ (if text_eq key other then some value else lookup other attrs)
unfolding write lookup
lookup-write key value other attrs h = elim (Bool-cases (text_eq key (codes "__proto__"))) [
  | inl dropped ↦ rw (dropped, proto_is_inherited key other dropped h) refl
  | inr set ↦ rw set refl
]

-- A word `=key=value`, whose key is not empty and holds no `=`, sets its key to the value, any
-- bytes at all, over what earlier words set; the other keys keep what they had. This is what is
-- read of keys that objects of JavaScript do not inherit (as they do `constructor` and
-- `__proto__`).
pub lookup-words_to_attrs :
    (ws : List Text) (key value other : Text)
    → 0 < length key
    → All (λ c. c ≢ b'=') key
    → is_one_of inherited other ≡ false
    → lookup other (words_to_attrs (ws ++ (attribute_word key value ∷ [])))
      ≡ (if text_eq key other then some value else lookup other (words_to_attrs ws))
unfolding words_to_attrs
lookup-words_to_attrs ws key value other p h own =
    rw
      (
        words_to_attrs_from-append [] ws (attribute_word key value),
        attribute-attribute_word key value p h,
      )
      (lookup-write key value other (words_to_attrs_from [] ws) own)
