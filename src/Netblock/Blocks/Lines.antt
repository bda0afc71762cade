-- ===== src/Netblock/Blocks/Lines.antt =====
-- What the lines of the file of blocks give, source/functions/netblock.c, as relations.
use mathlib.Core.Option.{some-injective}
use mathlib.Core.Path.{subst}
use libcrange.Base.{
  ◌≡◌, ◌<◌, sym, ap, ap₂, ◌∙◌, Text, List, [], ◌∷◌, none, some, true, false, length, ◌⊎◌, inl, inr,
  ends_in_newline,
}
use libcrange.Base.{ok}
use libcrange.Netblock.{Block, NetColo, netblock_key}
use libcrange.Netblock.Tinydns.{Resolver}
use libcrange.Netblock.Blocks.{BlockFile, skip_space, is_comment, netblock_from_string}

module _ (resolver : Resolver) (file : BlockFile) where
  -- the line gives the data centre and the block
  pub record Gives (line colo : Text) (b : Block) : Type 0 where
    pub no_comment : is_comment (skip_space line) ≡ false
    pub str : Text
    pub fields : file.two_fields_re (skip_space line) ≡ some (colo, str)
    pub reads : netblock_from_string resolver file str ≡ ok b

  -- one of the lines gives the data centre a block of the text
  unfoldable pub Texts : List Text → Text → Text → Type 0
  Texts [] colo q = ⊥
  Texts (line ∷ lines) colo q = ((b : Block) × Gives line colo b × (b.str ≡ q)) ⊎ Texts lines colo q

  -- one of the lines gives a block of the key
  unfoldable pub Keys : List Text → Text → NetColo → Type 0
  Keys [] key nc = ⊥
  Keys (line ∷ lines) key nc =
      (Gives line nc.colo nc.net × (netblock_key nc.net ≡ key)) ⊎ Keys lines key nc

  -- a comment, or a line with its newline that has no two fields or gives a block
  pub data IsLine : Text → Type 0 where
    comment : (line : Text) → is_comment (skip_space line) ≡ true → IsLine line
    other :
        (line : Text)
        → is_comment (skip_space line) ≡ false
        → 0 < length line
        → ends_in_newline line ≡ true
        → file.two_fields_re (skip_space line) ≡ none
        → IsLine line
    given :
        (line colo : Text) (b : Block)
        → 0 < length line
        → ends_in_newline line ≡ true
        → Gives line colo b
        → IsLine line

  unfoldable pub AllLines : List Text → Type 0
  AllLines [] = Unit
  AllLines (line ∷ lines) = IsLine line × AllLines lines

  -- A line gives one block at most.
  Gives-unique :
      {line c c' : Text} {b b' : Block} → Gives line c b → Gives line c' b' → (c ≡ c') × (b ≡ b')
  Gives-unique {c = c} {c' = c'} {b = b} {b' = b'} g g' =
      let pair : (c, g.str) ≡ (c', g'.str) = some-injective _ _ (sym g.fields ∙ g'.fields) in
      let text_of : g'.str ≡ g.str = sym (ap (λ x. x.1) pair) in
      let same : ok b ≡ ok b' =
        sym g.reads ∙ ap (netblock_from_string resolver file) (sym text_of) ∙ g'.reads in
      (ap (λ x. x.0) pair, cc)

  pub skipped-Texts :
      (line : Text) (lines : List Text)
      → ((c : Text) (b : Block) → ¬ Gives line c b)
      → (k q : Text) (W : Type 0)
      → ((Texts lines k q ⊎ W) → (Texts (line ∷ lines) k q ⊎ W))
        × ((Texts (line ∷ lines) k q ⊎ W) → (Texts lines k q ⊎ W))
  unfolding Texts
  skipped-Texts line lines never k q W = (
    elim [ inl t ↦ inl (inr t) | inr w ↦ inr w ],
    elim [ inl (inl (b, g, _)) ↦ absurd (never k b g) | inl (inr t) ↦ inl t | inr w ↦ inr w ],
  )

  pub skipped-Keys :
      (line : Text) (lines : List Text)
      → ((c : Text) (b : Block) → ¬ Gives line c b)
      → (k : Text) (nc : NetColo) (M : Type 0)
      → ((Keys lines k nc ⊎ M) → (Keys (line ∷ lines) k nc ⊎ M))
        × ((Keys (line ∷ lines) k nc ⊎ M) → (Keys lines k nc ⊎ M))
  unfolding Keys
  skipped-Keys line lines never k nc M = (
    elim [ inl t ↦ inl (inr t) | inr w ↦ inr w ],
    elim [
      | inl (inl (g, _)) ↦ absurd (never nc.colo nc.net g)
      | inl (inr t) ↦ inl t
      | inr w ↦ inr w
    ],
  )

  pub given-Texts :
      (line colo : Text) (b : Block) (lines : List Text)
      → Gives line colo b
      → (k q : Text) (W : Type 0)
      → ((Texts lines k q ⊎ ((colo ≡ k) × (b.str ≡ q) ⊎ W)) → (Texts (line ∷ lines) k q ⊎ W))
        × ((Texts (line ∷ lines) k q ⊎ W) → (Texts lines k q ⊎ ((colo ≡ k) × (b.str ≡ q) ⊎ W)))
  unfolding Texts
  given-Texts line colo b lines g k q W = (
    elim [
      | inl t ↦ inl (inr t)
      | inr (inl (c, s)) ↦ inl (inl (b, subst (λ x. Gives line x b) c g, s))
      | inr (inr w) ↦ inr w
    ],
    elim [
      | inl (inl (b', g', s)) ↦
          let (c, e) = Gives-unique g g' in inr (inl (c, ap (λ x. x.str) e ∙ s))
      | inl (inr t) ↦ inl t
      | inr w ↦ inr (inr w)
    ],
  )

  pub given-Keys :
      (line colo : Text) (b : Block) (lines : List Text)
      → Gives line colo b
      → (k : Text) (nc : NetColo) (M : Type 0)
      → ((Keys lines k nc ⊎ ((netblock_key b ≡ k) × (record { net = b; colo = colo } ≡ nc) ⊎ M))
          → (Keys (line ∷ lines) k nc ⊎ M))
        × ((Keys (line ∷ lines) k nc ⊎ M)
            → (Keys lines k nc
                ⊎ ((netblock_key b ≡ k) × (record { net = b; colo = colo } ≡ nc) ⊎ M)))
  unfolding Keys
  given-Keys line colo b lines g k nc M = (
    elim [
      | inl t ↦ inl (inr t)
      | inr (inl (key, e)) ↦
          inl (inl (subst (λ x. Gives line x.colo x.net × (netblock_key x.net ≡ k)) e (g, key)))
      | inr (inr w) ↦ inr w
    ],
    elim [
      | inl (inl (g', key)) ↦
          let (c, e) = Gives-unique g g' in
          inr (inl (ap netblock_key e ∙ key, ap₂ (λ x y. record { net = x; colo = y }) e c))
      | inl (inr t) ↦ inl t
      | inr w ↦ inr (inr w)
    ],
  )
