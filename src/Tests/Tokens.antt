-- ===== src/Tests/Tokens.antt =====
-- Tests of token.rs, list.rs and of `PostAction`.
use calloop.Common.{ℕ, ◌≡◌, ◌==◌, refl, none, [], ◌∷◌, true, arith}
use calloop.Error.{invalid_token, err}
use calloop.Token.{same_source_as, token_eq}
use calloop.Token.Factory.{numbered, numbered_distinct}
use calloop.SourceList.{SourceList, vacant_entry, get, position_vacant}
use calloop.SourceList.Slots.{IsValid}
use calloop.SourceList.Laws.{vacant_entry_revokes}
use calloop.Tests.Fixtures.{inner_at, entry_at, sources_two}

numbered_distinct_example :
    (same_source_as (inner_at 4 1 0) (inner_at 4 1 0) ≡ true)
    × (token_eq (inner_at 4 1 0) (inner_at 4 1 2) ≡ (0 == 2))
unfolding numbered
numbered_distinct_example =
    numbered_distinct (inner_at 4 1 0) (inner_at 4 1 0) (inner_at 4 1 2) 3 0 2 (omega arith)
      (omega arith) refl refl

sources_two-IsValid : IsValid sources_two
sources_two-IsValid = record {
  slots = (
    record { id_index = refl; version_u16 = omega arith; no_sub_id = refl },
    (record { id_index = refl; version_u16 = omega arith; no_sub_id = refl }, tt),
  );
  ids_u32 = omega arith;
}

abbrev sources_vacated : SourceList ℕ
sources_vacated = record { sources = entry_at 0 ∷ record (entry_at 1) { source = none } ∷ [] }

sources_vacated-IsValid : IsValid sources_vacated
sources_vacated-IsValid = record {
  slots = (
    record { id_index = refl; version_u16 = omega arith; no_sub_id = refl },
    (record { id_index = refl; version_u16 = omega arith; no_sub_id = refl }, tt),
  );
  ids_u32 = omega arith;
}

vacant_entry_revokes_example :
    get (vacant_entry sources_vacated).1 (inner_at 1 0 0) ≡ err invalid_token
unfolding vacant_entry get position_vacant same_source_as
vacant_entry_revokes_example =
    vacant_entry_revokes sources_vacated (vacant_entry sources_vacated).1 1 (inner_at 1 0 0)
      (record (entry_at 1) { source = none }) sources_vacated-IsValid refl refl refl
