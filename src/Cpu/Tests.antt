-- ===== src/Cpu/Tests.antt =====
-- The name of a processor (include/papper/detail/time.h) that fills its brand string with one word.
use papper.Common.{
  ℕ, ◌≤◌, ◌<◌, ◌≡◌, refl, ◌⊎◌, true, none, some, ◌∷◌, ◌++◌, ◌==◌, if◌then◌else◌, replicate,
}
use papper.Memory.{Bytes, blit}
use papper.Codec.{le_bytes, of_le}
use papper.Text.{Text, codes, text_eq}
use papper.Cpu.{
  CpuId, c_string, trim_blanks, brand_size, cpu_brand_name, on_intel, on_amd, read_leaves,
  name_from_leaves, cpu_model_name,
}
use papper.Cpu.ModelName.{NoLeading, NoTrailing, blanks, NoNul, name_from_leaves_lem}

-- An Intel processor, whose brand string is made of blanks and "Core".
abbrev core : ℕ → CpuId
core leaf =
    if leaf == 0
    then record {
      eax = 0x16;
      ebx = of_le (codes "Genu");
      ecx = of_le (codes "ntel");
      edx = of_le (codes "ineI");
    }
    else if leaf == 0x8000_0002
    then record {
      eax = of_le (codes "    ");
      ebx = of_le (codes "Core");
      ecx = of_le (codes "    ");
      edx = 0;
    }
    else record { eax = 0x8000_0003; ebx = 0; ecx = 0; edx = 0x100 }

core-on_intel : on_intel core ≡ true
unfolding on_intel cpu_brand_name le_bytes of_le text_eq blit
core-on_intel = refl

core_name : cpu_model_name core ≡ some (codes "Core")
unfolding cpu_model_name on_amd on_intel cpu_brand_name read_leaves trim_blanks le_bytes of_le
    text_eq blit c_string
core_name = refl

name_from_leaves_lem_example :
    ((16 < 3) × (name_from_leaves core 3 ≡ none))
    ⊎ ((3 ≤ 16)
        × ((brand : Bytes) × (read_leaves core 3 0 (replicate brand_size 0) ≡ some brand)
            × ((NoNul brand × (name_from_leaves core 3 ≡ none))
                ⊎ ((text : Text) × (rest : Bytes) × (name : Text) × (brand ≡ text ++ 0 ∷ rest)
                    × NoNul text
                    × (name_from_leaves core 3 ≡ some name)
                    × NoLeading name
                    × NoTrailing name
                    × ((m n : ℕ) × (text ≡ blanks m ++ name ++ blanks n))))))
name_from_leaves_lem_example = name_from_leaves_lem core 3

-- A brand string of 16 leaves that fills the array.
abbrev full : ℕ → CpuId
full leaf = record {
  eax = of_le (codes "Core");
  ebx = of_le (codes "Core");
  ecx = of_le (codes "Core");
  edx = of_le (codes "Core");
}

full_read_past_end : name_from_leaves full 16 ≡ none
unfolding read_leaves trim_blanks le_bytes of_le blit c_string
full_read_past_end = refl
