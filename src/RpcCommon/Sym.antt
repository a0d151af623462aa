-- ===== src/RpcCommon/Sym.antt =====
-- pkg/rpccommon/utils.go, ErrnoToSym and SymToErrno: error numbers travel by name, since the numbers
-- differ between systems. A `switch` is the list of its cases, tried in order, and its default.
pub mod RoundTrip
use dockerfuse.Base.{ℕ, Bool, List, [], ◌∷◌, ◌==◌, if◌then◌else◌}
use dockerfuse.Base.Text.{Text, str, text_eq}
use dockerfuse.Os.{Os}
use dockerfuse.Os.Errno.{ErrorName, errno}

-- `switch x { case k: return v … default: return d }` with `test x` for the comparison.
unfoldable pub switch {ℓ κ} : {A : Type ℓ} {B : Type κ} → (A → Bool) → List (A × B) → B → B
switch test [] default = default
switch test ((k, v) ∷ cases) default = if test k then v else switch test cases default

-- The cases of ErrnoToSym from EPROTO on.
abbrev pub later_sym_cases : List (ErrorName × Text)
later_sym_cases =
    (ErrorName.eproto, str "EPROTO")
    ∷ (ErrorName.eprotonosupport, str "EPROTONOSUPPORT")
    ∷ (ErrorName.eprototype, str "EPROTOTYPE")
    ∷ (ErrorName.erange, str "ERANGE")
    ∷ (ErrorName.eremote, str "EREMOTE")
    ∷ (ErrorName.erofs, str "EROFS")
    ∷ (ErrorName.eshutdown, str "ESHUTDOWN")
    ∷ (ErrorName.esocktnosupport, str "ESOCKTNOSUPPORT")
    ∷ (ErrorName.espipe, str "ESPIPE")
    ∷ (ErrorName.esrch, str "ESRCH")
    ∷ (ErrorName.estale, str "ESTALE")
    ∷ (ErrorName.etime, str "ETIME")
    ∷ (ErrorName.etimedout, str "ETIMEDOUT")
    ∷ (ErrorName.etoomanyrefs, str "ETOOMANYREFS")
    ∷ (ErrorName.etxtbsy, str "ETXTBSY")
    ∷ (ErrorName.eusers, str "EUSERS")
    ∷ (ErrorName.exdev, str "EXDEV")
    ∷ []

-- The cases of ErrnoToSym. EOPNOTSUPP and EWOULDBLOCK are not among them.
abbrev pub sym_cases : List (ErrorName × Text)
sym_cases =
    (ErrorName.e2big, str "E2BIG")
    ∷ (ErrorName.eacces, str "EACCES")
    ∷ (ErrorName.eaddrinuse, str "EADDRINUSE")
    ∷ (ErrorName.eaddrnotavail, str "EADDRNOTAVAIL")
    ∷ (ErrorName.eafnosupport, str "EAFNOSUPPORT")
    ∷ (ErrorName.eagain, str "EAGAIN")
    ∷ (ErrorName.ealready, str "EALREADY")
    ∷ (ErrorName.ebadf, str "EBADF")
    ∷ (ErrorName.ebadmsg, str "EBADMSG")
    ∷ (ErrorName.ebusy, str "EBUSY")
    ∷ (ErrorName.ecanceled, str "ECANCELED")
    ∷ (ErrorName.echild, str "ECHILD")
    ∷ (ErrorName.econnaborted, str "ECONNABORTED")
    ∷ (ErrorName.econnrefused, str "ECONNREFUSED")
    ∷ (ErrorName.econnreset, str "ECONNRESET")
    ∷ (ErrorName.edeadlk, str "EDEADLK")
    ∷ (ErrorName.edestaddrreq, str "EDESTADDRREQ")
    ∷ (ErrorName.edom, str "EDOM")
    ∷ (ErrorName.edquot, str "EDQUOT")
    ∷ (ErrorName.eexist, str "EEXIST")
    ∷ (ErrorName.efault, str "EFAULT")
    ∷ (ErrorName.efbig, str "EFBIG")
    ∷ (ErrorName.ehostdown, str "EHOSTDOWN")
    ∷ (ErrorName.ehostunreach, str "EHOSTUNREACH")
    ∷ (ErrorName.eidrm, str "EIDRM")
    ∷ (ErrorName.eilseq, str "EILSEQ")
    ∷ (ErrorName.einprogress, str "EINPROGRESS")
    ∷ (ErrorName.eintr, str "EINTR")
    ∷ (ErrorName.einval, str "EINVAL")
    ∷ (ErrorName.eio, str "EIO")
    ∷ (ErrorName.eisconn, str "EISCONN")
    ∷ (ErrorName.eisdir, str "EISDIR")
    ∷ (ErrorName.eloop, str "ELOOP")
    ∷ (ErrorName.emfile, str "EMFILE")
    ∷ (ErrorName.emlink, str "EMLINK")
    ∷ (ErrorName.emsgsize, str "EMSGSIZE")
    ∷ (ErrorName.emultihop, str "EMULTIHOP")
    ∷ (ErrorName.enametoolong, str "ENAMETOOLONG")
    ∷ (ErrorName.enetdown, str "ENETDOWN")
    ∷ (ErrorName.enetreset, str "ENETRESET")
    ∷ (ErrorName.enetunreach, str "ENETUNREACH")
    ∷ (ErrorName.enfile, str "ENFILE")
    ∷ (ErrorName.enobufs, str "ENOBUFS")
    ∷ (ErrorName.enodata, str "ENODATA")
    ∷ (ErrorName.enodev, str "ENODEV")
    ∷ (ErrorName.enoent, str "ENOENT")
    ∷ (ErrorName.enoexec, str "ENOEXEC")
    ∷ (ErrorName.enolck, str "ENOLCK")
    ∷ (ErrorName.enolink, str "ENOLINK")
    ∷ (ErrorName.enomem, str "ENOMEM")
    ∷ (ErrorName.enomsg, str "ENOMSG")
    ∷ (ErrorName.enoprotoopt, str "ENOPROTOOPT")
    ∷ (ErrorName.enospc, str "ENOSPC")
    ∷ (ErrorName.enosr, str "ENOSR")
    ∷ (ErrorName.enostr, str "ENOSTR")
    ∷ (ErrorName.enosys, str "ENOSYS")
    ∷ (ErrorName.enotblk, str "ENOTBLK")
    ∷ (ErrorName.enotconn, str "ENOTCONN")
    ∷ (ErrorName.enotdir, str "ENOTDIR")
    ∷ (ErrorName.enotempty, str "ENOTEMPTY")
    ∷ (ErrorName.enotrecoverable, str "ENOTRECOVERABLE")
    ∷ (ErrorName.enotsock, str "ENOTSOCK")
    ∷ (ErrorName.enotsup, str "ENOTSUP")
    ∷ (ErrorName.enotty, str "ENOTTY")
    ∷ (ErrorName.enxio, str "ENXIO")
    ∷ (ErrorName.eoverflow, str "EOVERFLOW")
    ∷ (ErrorName.eownerdead, str "EOWNERDEAD")
    ∷ (ErrorName.eperm, str "EPERM")
    ∷ (ErrorName.epfnosupport, str "EPFNOSUPPORT")
    ∷ (ErrorName.epipe, str "EPIPE")
    ∷ later_sym_cases

-- The cases of SymToErrno from EPROTO on.
abbrev pub later_errno_cases : List (Text × ErrorName)
later_errno_cases =
    (str "EPROTO", ErrorName.eproto)
    ∷ (str "EPROTONOSUPPORT", ErrorName.eprotonosupport)
    ∷ (str "EPROTOTYPE", ErrorName.eprototype)
    ∷ (str "ERANGE", ErrorName.erange)
    ∷ (str "EREMOTE", ErrorName.eremote)
    ∷ (str "EROFS", ErrorName.erofs)
    ∷ (str "ESHUTDOWN", ErrorName.eshutdown)
    ∷ (str "ESOCKTNOSUPPORT", ErrorName.esocktnosupport)
    ∷ (str "ESPIPE", ErrorName.espipe)
    ∷ (str "ESRCH", ErrorName.esrch)
    ∷ (str "ESTALE", ErrorName.estale)
    ∷ (str "ETIME", ErrorName.etime)
    ∷ (str "ETIMEDOUT", ErrorName.etimedout)
    ∷ (str "ETOOMANYREFS", ErrorName.etoomanyrefs)
    ∷ (str "ETXTBSY", ErrorName.etxtbsy)
    ∷ (str "EUSERS", ErrorName.eusers)
    ∷ (str "EWOULDBLOCK", ErrorName.ewouldblock)
    ∷ (str "EXDEV", ErrorName.exdev)
    ∷ []

-- The cases of SymToErrno.
abbrev pub errno_cases : List (Text × ErrorName)
errno_cases =
    (str "E2BIG", ErrorName.e2big)
    ∷ (str "EACCES", ErrorName.eacces)
    ∷ (str "EADDRINUSE", ErrorName.eaddrinuse)
    ∷ (str "EADDRNOTAVAIL", ErrorName.eaddrnotavail)
    ∷ (str "EAFNOSUPPORT", ErrorName.eafnosupport)
    ∷ (str "EAGAIN", ErrorName.eagain)
    ∷ (str "EALREADY", ErrorName.ealready)
    ∷ (str "EBADF", ErrorName.ebadf)
    ∷ (str "EBADMSG", ErrorName.ebadmsg)
    ∷ (str "EBUSY", ErrorName.ebusy)
    ∷ (str "ECANCELED", ErrorName.ecanceled)
    ∷ (str "ECHILD", ErrorName.echild)
    ∷ (str "ECONNABORTED", ErrorName.econnaborted)
    ∷ (str "ECONNREFUSED", ErrorName.econnrefused)
    ∷ (str "ECONNRESET", ErrorName.econnreset)
    ∷ (str "EDEADLK", ErrorName.edeadlk)
    ∷ (str "EDESTADDRREQ", ErrorName.edestaddrreq)
    ∷ (str "EDOM", ErrorName.edom)
    ∷ (str "EDQUOT", ErrorName.edquot)
    ∷ (str "EEXIST", ErrorName.eexist)
    ∷ (str "EFAULT", ErrorName.efault)
    ∷ (str "EFBIG", ErrorName.efbig)
    ∷ (str "EHOSTDOWN", ErrorName.ehostdown)
    ∷ (str "EHOSTUNREACH", ErrorName.ehostunreach)
    ∷ (str "EIDRM", ErrorName.eidrm)
    ∷ (str "EILSEQ", ErrorName.eilseq)
    ∷ (str "EINPROGRESS", ErrorName.einprogress)
    ∷ (str "EINTR", ErrorName.eintr)
    ∷ (str "EINVAL", ErrorName.einval)
    ∷ (str "EIO", ErrorName.eio)
    ∷ (str "EISCONN", ErrorName.eisconn)
    ∷ (str "EISDIR", ErrorName.eisdir)
    ∷ (str "ELOOP", ErrorName.eloop)
    ∷ (str "EMFILE", ErrorName.emfile)
    ∷ (str "EMLINK", ErrorName.emlink)
    ∷ (str "EMSGSIZE", ErrorName.emsgsize)
    ∷ (str "EMULTIHOP", ErrorName.emultihop)
    ∷ (str "ENAMETOOLONG", ErrorName.enametoolong)
    ∷ (str "ENETDOWN", ErrorName.enetdown)
    ∷ (str "ENETRESET", ErrorName.enetreset)
    ∷ (str "ENETUNREACH", ErrorName.enetunreach)
    ∷ (str "ENFILE", ErrorName.enfile)
    ∷ (str "ENOBUFS", ErrorName.enobufs)
    ∷ (str "ENODATA", ErrorName.enodata)
    ∷ (str "ENODEV", ErrorName.enodev)
    ∷ (str "ENOENT", ErrorName.enoent)
    ∷ (str "ENOEXEC", ErrorName.enoexec)
    ∷ (str "ENOLCK", ErrorName.enolck)
    ∷ (str "ENOLINK", ErrorName.enolink)
    ∷ (str "ENOMEM", ErrorName.enomem)
    ∷ (str "ENOMSG", ErrorName.enomsg)
    ∷ (str "ENOPROTOOPT", ErrorName.enoprotoopt)
    ∷ (str "ENOSPC", ErrorName.enospc)
    ∷ (str "ENOSR", ErrorName.enosr)
    ∷ (str "ENOSTR", ErrorName.enostr)
    ∷ (str "ENOSYS", ErrorName.enosys)
    ∷ (str "ENOTBLK", ErrorName.enotblk)
    ∷ (str "ENOTCONN", ErrorName.enotconn)
    ∷ (str "ENOTDIR", ErrorName.enotdir)
    ∷ (str "ENOTEMPTY", ErrorName.enotempty)
    ∷ (str "ENOTRECOVERABLE", ErrorName.enotrecoverable)
    ∷ (str "ENOTSOCK", ErrorName.enotsock)
    ∷ (str "ENOTSUP", ErrorName.enotsup)
    ∷ (str "ENOTTY", ErrorName.enotty)
    ∷ (str "ENXIO", ErrorName.enxio)
    ∷ (str "EOPNOTSUPP", ErrorName.eopnotsupp)
    ∷ (str "EOVERFLOW", ErrorName.eoverflow)
    ∷ (str "EOWNERDEAD", ErrorName.eownerdead)
    ∷ (str "EPERM", ErrorName.eperm)
    ∷ (str "EPFNOSUPPORT", ErrorName.epfnosupport)
    ∷ (str "EPIPE", ErrorName.epipe)
    ∷ later_errno_cases

unfoldable pub errno_to_sym : Os → ℕ → Text
unfolding switch
errno_to_sym os e = switch (λ n. e == errno os n) sym_cases (str "EIO")

unfoldable pub sym_to_errno : Os → Text → ℕ
unfolding switch text_eq
sym_to_errno os sym = errno os (switch (text_eq sym) errno_cases ErrorName.eio)
