-- ===== src/Tests/Elfgens.antt =====
-- The theorems on built binaries at a concrete layout.
use sec_compile_option.Base.{
  [], arith, false, map, refl, replicate, take, true, ◌++◌, ◌<◌, ◌^◌, ◌∷◌, ◌≡◌, ◌≤◌,
}
use sec_compile_option.Elf.{em_aarch64}
use sec_compile_option.Elfgen.{Layout, join_paths, phdr_count, strings_of, tmp_dyn}
use sec_compile_option.Elfgen.Assembly.{build-image_of, image_of}
use sec_compile_option.Elfgen.Contents.{build-read_elf, content_of, dynamic_bytes}
use sec_compile_option.Elfgen.Image.{build, interp_text, place, plan_of}
use sec_compile_option.Elfgen.Reader.{read_elf}
use sec_compile_option.Elfgen.Verdicts.{IsReported, build-IsReported}
use sec_compile_option.Go.Run.{done}
use sec_compile_option.Go.Strings.{Bytes, codes}
use sec_compile_option.Tests.Samples.{sample_host}

abbrev sample_layout : Layout
sample_layout = record {
  name = codes "sample";
  machine = em_aarch64;
  pie = true;
  et_dyn = false;
  interp = false;
  gnu_stack_x = false;
  no_stack = false;
  relro = true;
  bind_now = false;
  flags1_pie = true;
  flags_bind = true;
  text_rel = false;
  flags_text_rel = true;
  retguard = true;
  pac_ibsp = true;
  rpath = codes "/opt" ∷ codes "/lib" ∷ [];
  runpath = [];
  dyn_syms = codes "__memcpy_chk" ∷ [];
  object_syms = codes "environ" ∷ [];
}

total_lem : (plan_of sample_layout (strings_of sample_layout)).total ≡ 672
unfolding plan_of strings_of place tmp_dyn interp_text phdr_count
total_lem = refl

sample_small : (plan_of sample_layout (strings_of sample_layout)).total < 2 ^ 32
sample_small = omega (arith, total_lem)

sample_granted : (plan_of sample_layout (strings_of sample_layout)).total ≤ sample_host.max_alloc
sample_granted = omega (arith, total_lem)

build-image_of_example : build sample_layout ≡ done (image_of sample_layout)
build-image_of_example = build-image_of sample_layout

build-read_elf_example :
    (image : Bytes) × (build sample_layout ≡ done image)
    × (take 16 image ≡ 0x7f ∷ b'E' ∷ b'L' ∷ b'F' ∷ 2 ∷ 1 ∷ 1 ∷ replicate 9 0)
    × ((read_elf image).ftype ≡ 3)
    × ((read_elf image).machine ≡ em_aarch64)
    × (map content_of (read_elf image).progs
        ≡ (1, 5, image)
          ∷ (3, 4, codes "/lib64/ld-linux-x86-64.so.2" ++ 0 ∷ [])
          ∷ (2, 6, dynamic_bytes sample_layout)
          ∷ (0x6474e552, 4, image)
          ∷ (0x6788fc60, 4, [])
          ∷ (0x6474e551, 6, [])
          ∷ [])
unfolding join_paths
build-read_elf_example = build-read_elf sample_layout sample_small

build-IsReported_example :
    (image : Bytes) × (build sample_layout ≡ done image)
    × IsReported sample_host sample_layout (read_elf image)
build-IsReported_example = build-IsReported sample_host sample_layout sample_small sample_granted
