-- ===== src/Id/Tests.antt =====
-- Generators that panic, and an identifier of a sample package.
use grpcx.Common.{◌≡◌, refl, none}
use grpcx.Common.Integers.{pos, negsuc}
use grpcx.Id.{new_generator_with_alphabet, new_generator_with_length, IsOver}

empty_alphabet : new_generator_with_alphabet "" (pos 3) ≡ none
unfolding new_generator_with_alphabet
empty_alphabet = refl

negative_length : new_generator_with_length (negsuc 4) ≡ none
unfolding new_generator_with_length
negative_length = refl

digits-IsOver : IsOver "0123456789" "42"
digits-IsOver = (refl, (refl, tt))
