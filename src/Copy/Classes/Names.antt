-- ===== src/Copy/Classes/Names.antt =====
-- The classes that a class of src/ph_copy.c names, and what holds of all of them.
use phactor.Base.{ℕ, ◌≤◌, Option, none, some, List, [], ◌∷◌, Ptr, length}
use phactor.Copy.Classes.Defs.{TraitAlias, Excluded, TraitPrecedence, ClassEntry}
use phactor.Copy.Tables.{All, All-map}

-- What holds of every class that a class names.
module _ (P : Ptr → Type 0) where
  abbrev pub NamesBlock : ℕ → Option (List Ptr) → Type 0
  NamesBlock n none = Unit {0}
  NamesBlock n (some ps) = (n ≤ length ps) × All P ps

  abbrev pub NamesExcluded : Option (List Excluded) → Type 0
  NamesExcluded none = Unit {0}
  NamesExcluded (some []) = ⊥
  NamesExcluded (some (e ∷ rest)) = P e.ce

  abbrev pub NamesPrecedence : TraitPrecedence → Type 0
  NamesPrecedence t = P t.trait_method.ce × NamesExcluded t.exclude_from_classes

  abbrev pub NamesAliases : Option (List TraitAlias) → Type 0
  NamesAliases none = Unit {0}
  NamesAliases (some ts) = All (λ t. P t.trait_method.ce) ts

  abbrev pub NamesPrecedences : Option (List TraitPrecedence) → Type 0
  NamesPrecedences none = Unit {0}
  NamesPrecedences (some ts) = All NamesPrecedence ts

  pub record Names (c : ClassEntry) : Type 0 where
    pub parent : P c.parent
    pub interfaces : NamesBlock c.num_interfaces c.interfaces
    pub traits : NamesBlock c.num_traits c.traits
    pub aliases : NamesAliases c.trait_aliases
    pub precedences : NamesPrecedences c.trait_precedences

module _ {P Q : Ptr → Type 0} (f : (p : Ptr) → P p → Q p) where
  block-map : (n : ℕ) (o : Option (List Ptr)) → NamesBlock P n o → NamesBlock Q n o
  block-map n none h = tt
  block-map n (some ps) h = (h.0, All-map ps f h.1)

  excluded-map : (o : Option (List Excluded)) → NamesExcluded P o → NamesExcluded Q o
  excluded-map none h = tt
  excluded-map (some []) h = h
  excluded-map (some (e ∷ rest)) h = f e.ce h

  aliases-map : (o : Option (List TraitAlias)) → NamesAliases P o → NamesAliases Q o
  aliases-map none h = tt
  aliases-map (some ts) h = All-map ts (λ t. f t.trait_method.ce) h

  precedences-map :
      (o : Option (List TraitPrecedence)) → NamesPrecedences P o → NamesPrecedences Q o
  precedences-map none h = tt
  precedences-map (some ts) h =
      All-map ts (λ t k. (f t.trait_method.ce k.0, excluded-map t.exclude_from_classes k.1)) h

  pub Names-map : (c : ClassEntry) → Names P c → Names Q c
  Names-map c h = record {
    parent = f c.parent h.parent;
    interfaces = block-map c.num_interfaces c.interfaces h.interfaces;
    traits = block-map c.num_traits c.traits h.traits;
    aliases = aliases-map c.trait_aliases h.aliases;
    precedences = precedences-map c.trait_precedences h.precedences;
  }
