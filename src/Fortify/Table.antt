-- ===== src/Fortify/Table.antt =====
-- internal/checksec/fortify.go: the functions that have a fortified variant.
use sec_compile_option.Base.{List, [], ◌∷◌}
use sec_compile_option.Go.Strings.{Bytes, codes}

abbrev pub supported_chk_funcs : List Bytes
supported_chk_funcs =
    codes "__memcpy_chk"
    ∷ codes "__memmove_chk"
    ∷ codes "__mempcpy_chk"
    ∷ codes "__memset_chk"
    ∷ codes "__memccpy_chk"
    ∷ codes "__explicit_bzero_chk"
    ∷ codes "__stpcpy_chk"
    ∷ codes "__stpncpy_chk"
    ∷ codes "__strcat_chk"
    ∷ codes "__strcpy_chk"
    ∷ codes "__strncat_chk"
    ∷ codes "__strncpy_chk"
    ∷ codes "__strlen_chk"
    ∷ codes "__strlcat_chk"
    ∷ codes "__strlcpy_chk"
    ∷ codes "__snprintf_chk"
    ∷ codes "__sprintf_chk"
    ∷ codes "__vsnprintf_chk"
    ∷ codes "__vsprintf_chk"
    ∷ codes "__fprintf_chk"
    ∷ codes "__printf_chk"
    ∷ codes "__vfprintf_chk"
    ∷ codes "__vprintf_chk"
    ∷ codes "__asprintf_chk"
    ∷ codes "__vasprintf_chk"
    ∷ codes "__dprintf_chk"
    ∷ codes "__vdprintf_chk"
    ∷ codes "__syslog_chk"
    ∷ codes "__vsyslog_chk"
    ∷ codes "__obstack_printf_chk"
    ∷ codes "__obstack_vprintf_chk"
    ∷ codes "__fwprintf_chk"
    ∷ codes "__vfwprintf_chk"
    ∷ codes "__wprintf_chk"
    ∷ codes "__vwprintf_chk"
    ∷ codes "__swprintf_chk"
    ∷ codes "__vswprintf_chk"
    ∷ codes "__wcpcpy_chk"
    ∷ codes "__wcpncpy_chk"
    ∷ codes "__wcscat_chk"
    ∷ codes "__wcscpy_chk"
    ∷ codes "__wcsncat_chk"
    ∷ codes "__wcsncpy_chk"
    ∷ codes "__wmemcpy_chk"
    ∷ codes "__wmemmove_chk"
    ∷ codes "__wmempcpy_chk"
    ∷ codes "__wmemset_chk"
    ∷ codes "__wcrtomb_chk"
    ∷ codes "__wctomb_chk"
    ∷ codes "__mbsnrtowcs_chk"
    ∷ codes "__mbsrtowcs_chk"
    ∷ codes "__mbstowcs_chk"
    ∷ codes "__wcsnrtombs_chk"
    ∷ codes "__wcsrtombs_chk"
    ∷ codes "__wcstombs_chk"
    ∷ codes "__wdunderflow_chk"
    ∷ codes "__gets_chk"
    ∷ codes "__fgets_chk"
    ∷ codes "__fgets_unlocked_chk"
    ∷ codes "__fgetws_chk"
    ∷ codes "__fgetws_unlocked_chk"
    ∷ codes "__fread_chk"
    ∷ codes "__fread_unlocked_chk"
    ∷ codes "__read_chk"
    ∷ codes "__pread_chk"
    ∷ codes "__pread64_chk"
    ∷ codes "__readlink_chk"
    ∷ codes "__readlinkat_chk"
    ∷ codes "__realpath_chk"
    ∷ codes "__recv_chk"
    ∷ codes "__recvfrom_chk"
    ∷ codes "__send_chk"
    ∷ codes "__poll_chk"
    ∷ codes "__ppoll_chk"
    ∷ codes "__confstr_chk"
    ∷ codes "__getcwd_chk"
    ∷ codes "__getdomainname_chk"
    ∷ codes "__getgroups_chk"
    ∷ codes "__gethostname_chk"
    ∷ codes "__getlogin_r_chk"
    ∷ codes "__getwd_chk"
    ∷ codes "__ptsname_r_chk"
    ∷ codes "__ttyname_r_chk"
    ∷ codes "__longjmp_chk"
    ∷ []
