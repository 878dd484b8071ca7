-- ===== src/Ir/RoundTrip.antt =====
-- What parsing gives on what printing wrote: the keywords of crates/iec_ir/src/lib.rs.
use robocpp.Base.{◌≡◌, refl, ◌↔◌, ◌⊎◌, inl, inr, some}
use robocpp.Base.Text.{Text, codes, eqb}
use robocpp.Base.Map.{lookup, lookup_sound}
use robocpp.Ir.Names.{canonical_identifier}
use robocpp.Ir.Elementary
use robocpp.Ir.Elementary.{ElementaryType, bool, date, time_of_day, date_and_time}
use robocpp.Ir.Qualifier
use robocpp.Ir.Qualifier.{SfcActionQualifier, pulse}

-- The canonical spellings of a type: its IEC name, and the abbreviations of the dates.
abbrev pub SpellsType : ElementaryType → Text → Type 0
SpellsType date k = (k ≡ codes "DATE") ⊎ (k ≡ codes "D")
SpellsType time_of_day k = (k ≡ codes "TIME_OF_DAY") ⊎ (k ≡ codes "TOD")
SpellsType date_and_time k = (k ≡ codes "DATE_AND_TIME") ⊎ (k ≡ codes "DT")
SpellsType t k = k ≡ Elementary.as_iec t

lookup-SpellsType :
    (t : ElementaryType) (k : Text) → SpellsType t k → lookup k Elementary.keywords ≡ some t
unfolding lookup eqb Elementary.as_iec
lookup-SpellsType date k (inl h) = rw h
lookup-SpellsType date k (inr h) = rw h
lookup-SpellsType time_of_day k (inl h) = rw h
lookup-SpellsType time_of_day k (inr h) = rw h
lookup-SpellsType date_and_time k (inl h) = rw h
lookup-SpellsType date_and_time k (inr h) = rw h
lookup-SpellsType _ k h = rw h

-- `ElementaryType::parse` gives a type exactly on the spellings of its name, in upper or lower case
-- and with white space around it, so it undoes `as_iec`.
pub parse_type_iff :
    (s : Text) (t : ElementaryType)
    → (Elementary.parse s ≡ some t) ↔ SpellsType t (canonical_identifier s)
unfolding Elementary.parse Elementary.as_iec
parse_type_iff s t = (
  lookup_sound (λ k t. SpellsType t k) (canonical_identifier s) t Elementary.keywords
      (
        refl,
        (
          refl,
          (
            refl,
            (
              refl,
              (
                refl,
                (
                  refl,
                  (
                    refl,
                    (
                      refl,
                      (
                        refl,
                        (
                          refl,
                          (
                            refl,
                            (
                              refl,
                              (
                                refl,
                                (
                                  refl,
                                  (
                                    refl,
                                    (
                                      refl,
                                      (
                                        refl,
                                        (
                                          refl,
                                          (
                                            inl refl,
                                            (
                                              inr refl,
                                              (inl refl, (inr refl, (inl refl, (inr refl, tt)))),
                                            ),
                                          ),
                                        ),
                                      ),
                                    ),
                                  ),
                                ),
                              ),
                            ),
                          ),
                        ),
                      ),
                    ),
                  ),
                ),
              ),
            ),
          ),
        ),
      ),
  lookup-SpellsType t (canonical_identifier s),
)

abbrev pub SpellsQualifier : SfcActionQualifier → Text → Type 0
SpellsQualifier pulse k = (k ≡ codes "P") ⊎ (k ≡ codes "P1")
SpellsQualifier q k = k ≡ Qualifier.as_iec q

lookup-SpellsQualifier :
    (q : SfcActionQualifier) (k : Text) → SpellsQualifier q k → lookup k Qualifier.keywords ≡ some q
unfolding lookup eqb Qualifier.as_iec
lookup-SpellsQualifier pulse k (inl h) = rw h
lookup-SpellsQualifier pulse k (inr h) = rw h
lookup-SpellsQualifier _ k h = rw h

-- `SfcActionQualifier::parse` gives a qualifier exactly on the spellings of its IEC name (`P1` is
-- another name of `P`), in upper or lower case and with white space around it.
pub parse_qualifier_iff :
    (s : Text) (q : SfcActionQualifier)
    → (Qualifier.parse s ≡ some q) ↔ SpellsQualifier q (canonical_identifier s)
unfolding Qualifier.parse Qualifier.as_iec
parse_qualifier_iff s q = (
  lookup_sound (λ k q. SpellsQualifier q k) (canonical_identifier s) q Qualifier.keywords
      (
        refl,
        (refl, (refl, (inl refl, (inr refl, (refl, (refl, (refl, (refl, (refl, (refl, tt)))))))))),
      ),
  lookup-SpellsQualifier q (canonical_identifier s),
)
