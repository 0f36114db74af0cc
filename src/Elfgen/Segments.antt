-- ===== src/Elfgen/Segments.antt =====
-- The program headers of the image, read back.
use sec_compile_option.Base.{
  All, List, [], ap, arith, drop, if◌then◌else◌, length, map, refl, take, ◌%◌, ◌++◌, ◌<◌, ◌==◌, ◌^◌,
  ◌||◌, ◌∙◌, ◌∷◌, ◌≡◌,
}
use sec_compile_option.Dyn.Entries.{uint_le-put_le}
use sec_compile_option.Elf.{Prog, et_dyn}
use sec_compile_option.Elfgen.{Layout}
use sec_compile_option.Elfgen.Image.{Phdr, et_exec, machine_of}
use sec_compile_option.Elfgen.Reader.{prog_at, progs_at, read_elf}
use sec_compile_option.Elfgen.Writes.{concat_map, header_bytes, phdr_bytes}
use sec_compile_option.Go.Io.{eof, ok}
use sec_compile_option.Go.Strings.{Bytes}

-- The fields fit in their words.
pub record IsWords (h : Phdr) : Type 0 where
  pub type_fits : h.ptype < 256 ^ 4
  pub flags_fit : h.flags < 256 ^ 4
  pub off_fits : h.off < 256 ^ 8
  pub vaddr_fits : h.vaddr < 256 ^ 8
  pub filesz_fits : h.filesz < 256 ^ 8

-- The segment of a header, over the image.
abbrev pub segment_of : Bytes → Phdr → Prog
segment_of image h =
    let got = take h.filesz (drop h.off image) in
    record {
      ptype = h.ptype;
      flags = h.flags;
      off = h.off;
      vaddr = h.vaddr;
      filesz = h.filesz;
      payload = got;
      outcome = if length got == h.filesz then ok else eof;
    }

prog_at-phdr_bytes :
    (image rest : Bytes) (h : Phdr)
    → IsWords h
    → prog_at image (phdr_bytes h ++ rest) ≡ segment_of image h
prog_at-phdr_bytes image rest h w =
    rw
      (
        uint_le-put_le 4 h.ptype w.type_fits,
        uint_le-put_le 4 h.flags w.flags_fit,
        uint_le-put_le 8 h.off w.off_fits,
        uint_le-put_le 8 h.vaddr w.vaddr_fits,
        uint_le-put_le 8 h.filesz w.filesz_fits,
      )
      refl

progs_at-concat_map :
    (image rest : Bytes) (hs : List Phdr)
    → All IsWords hs
    → progs_at image (length hs) (concat_map phdr_bytes hs ++ rest) ≡ map (segment_of image) hs
progs_at-concat_map image rest [] w = refl
progs_at-concat_map image rest (h ∷ hs) (w, ws) =
    let behind = concat_map phdr_bytes hs ++ rest in
    ap (λ p. p ∷ progs_at image (length hs) behind) (prog_at-phdr_bytes image behind h w)
    ∙ ap (◌∷◌ (segment_of image h)) (progs_at-concat_map image rest hs ws)

-- The ELF header of an image, and its table of program headers.
pub read_elf-progs :
    (l : Layout) (hs : List Phdr) (rest : Bytes)
    → length hs < 65536
    → All IsWords hs
    → (let image = header_bytes l (length hs) ++ (concat_map phdr_bytes hs ++ rest) in
        ((read_elf image).progs ≡ map (segment_of image) hs)
        × ((read_elf image).ftype ≡ (if l.pie || l.et_dyn then et_dyn else et_exec))
        × ((read_elf image).machine ≡ machine_of l % 65536))
read_elf-progs l hs rest small w =
    let table = concat_map phdr_bytes hs ++ rest in
    let image = header_bytes l (length hs) ++ table in
    (
      ap (λ n. progs_at image n table) (uint_le-put_le 2 (length hs) small)
          ∙ progs_at-concat_map image rest hs w,
      uint_le-put_le 2 (if l.pie || l.et_dyn then et_dyn else et_exec) (ground arith),
      omega arith,
    )
