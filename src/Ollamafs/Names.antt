-- ===== src/Ollamafs/Names.antt =====
-- ollamafs.go, `splitName`: a printed reference is taken apart into the parts that it was made of.
use potluck.Prelude.{
  Lacks, split_on-whole, split_on-append, split_on, ℕ, ◌≡◌, refl, ap, ◌∙◌, [], ◌∷◌, ◌++◌,
  All-append, Text, ==_iff, none, some, arith,
}
use potluck.Ollamafs.{
  cut_last, StoreName, default_host, default_namespace, default_tag, place_parts, split_name,
}

cut_last-none : (c : ℕ) (s : Text) → Lacks c s → cut_last c s ≡ none
unfolding cut_last
cut_last-none c [] h = refl
cut_last-none c (b ∷ s) h = ground (arith, cut_last-none c s h.1)

pub cut_last-append : (c : ℕ) (s t : Text) → Lacks c t → cut_last c (s ++ c ∷ t) ≡ some (s, t)
unfolding cut_last
cut_last-append c [] t h = rw (cut_last-none c t h, (==_iff c c).1 refl)
cut_last-append c (b ∷ s) t h = rw (cut_last-append c s t h)

split_name_tagged :
    (name tag : Text)
    → Lacks b':' tag
    → split_name (name ++ b':' ∷ tag) ≡ place_parts name tag (split_on b'/' name)
unfolding split_name
split_name_tagged name tag h = rw (cut_last-append b':' name tag h, split_name)

split_name_untagged :
    (name : Text)
    → Lacks b':' name
    → split_name name ≡ place_parts name default_tag (split_on b'/' name)
unfolding split_name
split_name_untagged name h = rw (cut_last-none b':' name h, split_name)

abbrev pub in_namespace : Text → Text → Text
in_namespace namespace name = namespace ++ b'/' ∷ name

abbrev pub stored : Text → Text → Text → Text → StoreName
stored host namespace name tag = record {
  host = host;
  namespace = namespace;
  name = name;
  tag = tag;
}

module _ (host namespace name tag : Text) (h : Lacks b'/' host) (s : Lacks b'/' namespace)
    (n : Lacks b'/' name) (t : Lacks b':' tag) where
  two_parts : split_on b'/' (in_namespace namespace name) ≡ namespace ∷ name ∷ []
  two_parts =
      split_on-append b'/' namespace name s ∙ ap (◌∷◌ namespace) (split_on-whole b'/' name n)

  three_parts :
      split_on b'/' (in_namespace host (in_namespace namespace name)) ≡ host ∷ namespace ∷ name ∷ []
  three_parts = split_on-append b'/' host _ h ∙ ap (◌∷◌ host) two_parts

  -- A reference with a tag yields its own parts, and Ollama's defaults for the host and the
  -- namespace that it leaves out. No part may hold a slash, but the tag may, and the tag no colon.
  pub split_name_lem :
      (split_name (in_namespace host (in_namespace namespace name) ++ b':' ∷ tag)
        ≡ stored host namespace name tag)
      × (split_name (in_namespace namespace name ++ b':' ∷ tag)
          ≡ stored default_host namespace name tag)
      × (split_name (name ++ b':' ∷ tag) ≡ stored default_host default_namespace name tag)
  unfolding place_parts
  split_name_lem = (
    split_name_tagged _ tag t ∙ rw three_parts,
    split_name_tagged _ tag t ∙ rw two_parts,
    split_name_tagged _ tag t ∙ rw (split_on-whole b'/' name n),
  )

  -- Without a colon the tag is "latest".
  pub split_name_latest :
      Lacks b':' host
      → Lacks b':' namespace
      → Lacks b':' name
      → (split_name (in_namespace host (in_namespace namespace name))
          ≡ stored host namespace name default_tag)
        × (split_name (in_namespace namespace name)
            ≡ stored default_host namespace name default_tag)
        × (split_name name ≡ stored default_host default_namespace name default_tag)
  unfolding place_parts
  split_name_latest hc sc nc = (
    split_name_untagged _ (All-append _ host _ hc (refl, All-append _ namespace _ sc (refl, nc)))
        ∙ rw three_parts,
    split_name_untagged _ (All-append _ namespace _ sc (refl, nc)) ∙ rw two_parts,
    split_name_untagged _ nc ∙ rw (split_on-whole b'/' name n),
  )

-- A registry with a port and no tag is misread: the port and all behind it become the tag, and the
-- host becomes the name of a model of the default registry.
pub split_name_port :
    (host port path : Text)
    → Lacks b'/' host
    → Lacks b':' port
    → Lacks b':' path
    → split_name (host ++ b':' ∷ in_namespace port path)
      ≡ stored default_host default_namespace host (in_namespace port path)
unfolding place_parts
split_name_port host port path h p q =
    split_name_tagged host (in_namespace port path) (All-append _ port _ p (refl, q))
    ∙ rw (split_on-whole b'/' host h)
