-- ===== src/Mount/Plain.antt =====
-- No text of the table of filesystems has a NUL, so all of it reaches the kernel.
use zevory_linux.Prelude.{◌≡◌, refl, false, Option, none, some, All}
use zevory_linux.Os.{Text, Call, Os}
use zevory_linux.Sys.{cstr, checked, check, transpose_cstr, last_os_error}
use zevory_linux.Sys
use zevory_linux.Sys.Io.{bytes, ok, has_nul}
use zevory_linux.Mount.{Vfs, opts_of, table}

abbrev IsClean : Text → Type 0
IsClean t = has_nul t ≡ false

abbrev IsCleanOption : Option Text → Type 0
IsCleanOption none = Unit
IsCleanOption (some t) = IsClean t

-- No text of the entry has a NUL, so every string reaches the kernel.
pub record IsPlain (v : Vfs) : Type 0 where
  pub source : IsClean v.source
  pub target : IsClean v.target
  pub fstype : IsClean v.fstype
  pub content : IsCleanOption v.content

plain :
    (v : Vfs)
    → IsClean v.source
    → IsClean v.target
    → IsClean v.fstype
    → IsCleanOption v.content
    → IsPlain v
plain v s t f c = record { source = s; target = t; fstype = f; content = c }

transpose_plain : (c : Option Text) → IsCleanOption c → transpose_cstr c ≡ ok c
unfolding cstr
transpose_plain none h = refl
transpose_plain (some t) h = rw (h, transpose_cstr)

module _ (o : Os) where
  pub mount_plain :
      (v : Vfs)
      → IsPlain v
      → Sys.mount o (opts_of v) ≡ check o (Call.mount v.source v.target v.fstype v.flags v.content)
  unfolding Sys.mount cstr opts_of
  mount_plain v h = rw (h.source, h.target, h.fstype, transpose_plain v.content h.content)

  pub table-IsPlain : All IsPlain (table o)
  unfolding table bytes has_nul
  table-IsPlain = (
    plain _ refl refl refl tt,
    (
      plain _ refl refl refl tt,
      (plain _ refl refl refl refl, (plain _ refl refl refl refl, (plain _ refl refl refl tt, tt))),
    ),
  )
