-- ===== src/Os/Errno.antt =====
-- The error numbers of package syscall by name, on the two systems that the program is built for:
-- the constants syscall.E* of Go's GOOS=linux and GOOS=darwin, as far as the program names them.
use dockerfuse.Base.{ℕ}
use dockerfuse.Os.System.{Os, linux, darwin}

pub data ErrorName : Type 0 where
  e2big eacces eaddrinuse eaddrnotavail eafnosupport eagain ealready ebadf ebadmsg ebusy : ErrorName
  ecanceled echild econnaborted econnrefused econnreset edeadlk edestaddrreq edom edquot eexist :
      ErrorName
  efault efbig ehostdown ehostunreach eidrm eilseq einprogress eintr einval eio eisconn eisdir :
      ErrorName
  eloop emfile emlink emsgsize emultihop enametoolong enetdown enetreset enetunreach enfile :
      ErrorName
  enobufs enodata enodev enoent enoexec enolck enolink enomem enomsg enoprotoopt enospc enosr :
      ErrorName
  enostr enosys enotblk enotconn enotdir enotempty enotrecoverable enotsock enotsup enotty enxio :
      ErrorName
  eopnotsupp eoverflow eownerdead eperm epfnosupport epipe eproto eprotonosupport eprototype :
      ErrorName
  erange eremote erofs eshutdown esocktnosupport espipe esrch estale etime etimedout etoomanyrefs :
      ErrorName
  etxtbsy eusers ewouldblock exdev : ErrorName

-- zerrors_linux_amd64.go and zerrors_linux_arm64.go agree on these.
abbrev pub linux_errno : ErrorName → ℕ
linux_errno e2big = 7
linux_errno eacces = 13
linux_errno eaddrinuse = 98
linux_errno eaddrnotavail = 99
linux_errno eafnosupport = 97
linux_errno eagain = 11
linux_errno ealready = 114
linux_errno ebadf = 9
linux_errno ebadmsg = 74
linux_errno ebusy = 16
linux_errno ecanceled = 125
linux_errno echild = 10
linux_errno econnaborted = 103
linux_errno econnrefused = 111
linux_errno econnreset = 104
linux_errno edeadlk = 35
linux_errno edestaddrreq = 89
linux_errno edom = 33
linux_errno edquot = 122
linux_errno eexist = 17
linux_errno efault = 14
linux_errno efbig = 27
linux_errno ehostdown = 112
linux_errno ehostunreach = 113
linux_errno eidrm = 43
linux_errno eilseq = 84
linux_errno einprogress = 115
linux_errno eintr = 4
linux_errno einval = 22
linux_errno eio = 5
linux_errno eisconn = 106
linux_errno eisdir = 21
linux_errno eloop = 40
linux_errno emfile = 24
linux_errno emlink = 31
linux_errno emsgsize = 90
linux_errno emultihop = 72
linux_errno enametoolong = 36
linux_errno enetdown = 100
linux_errno enetreset = 102
linux_errno enetunreach = 101
linux_errno enfile = 23
linux_errno enobufs = 105
linux_errno enodata = 61
linux_errno enodev = 19
linux_errno enoent = 2
linux_errno enoexec = 8
linux_errno enolck = 37
linux_errno enolink = 67
linux_errno enomem = 12
linux_errno enomsg = 42
linux_errno enoprotoopt = 92
linux_errno enospc = 28
linux_errno enosr = 63
linux_errno enostr = 60
linux_errno enosys = 38
linux_errno enotblk = 15
linux_errno enotconn = 107
linux_errno enotdir = 20
linux_errno enotempty = 39
linux_errno enotrecoverable = 131
linux_errno enotsock = 88
linux_errno enotsup = 95
linux_errno enotty = 25
linux_errno enxio = 6
linux_errno eopnotsupp = 95
linux_errno eoverflow = 75
linux_errno eownerdead = 130
linux_errno eperm = 1
linux_errno epfnosupport = 96
linux_errno epipe = 32
linux_errno eproto = 71
linux_errno eprotonosupport = 93
linux_errno eprototype = 91
linux_errno erange = 34
linux_errno eremote = 66
linux_errno erofs = 30
linux_errno eshutdown = 108
linux_errno esocktnosupport = 94
linux_errno espipe = 29
linux_errno esrch = 3
linux_errno estale = 116
linux_errno etime = 62
linux_errno etimedout = 110
linux_errno etoomanyrefs = 109
linux_errno etxtbsy = 26
linux_errno eusers = 87
linux_errno ewouldblock = 11
linux_errno exdev = 18

-- zerrors_darwin_amd64.go and zerrors_darwin_arm64.go agree on these.
abbrev pub darwin_errno : ErrorName → ℕ
darwin_errno e2big = 7
darwin_errno eacces = 13
darwin_errno eaddrinuse = 48
darwin_errno eaddrnotavail = 49
darwin_errno eafnosupport = 47
darwin_errno eagain = 35
darwin_errno ealready = 37
darwin_errno ebadf = 9
darwin_errno ebadmsg = 94
darwin_errno ebusy = 16
darwin_errno ecanceled = 89
darwin_errno echild = 10
darwin_errno econnaborted = 53
darwin_errno econnrefused = 61
darwin_errno econnreset = 54
darwin_errno edeadlk = 11
darwin_errno edestaddrreq = 39
darwin_errno edom = 33
darwin_errno edquot = 69
darwin_errno eexist = 17
darwin_errno efault = 14
darwin_errno efbig = 27
darwin_errno ehostdown = 64
darwin_errno ehostunreach = 65
darwin_errno eidrm = 90
darwin_errno eilseq = 92
darwin_errno einprogress = 36
darwin_errno eintr = 4
darwin_errno einval = 22
darwin_errno eio = 5
darwin_errno eisconn = 56
darwin_errno eisdir = 21
darwin_errno eloop = 62
darwin_errno emfile = 24
darwin_errno emlink = 31
darwin_errno emsgsize = 40
darwin_errno emultihop = 95
darwin_errno enametoolong = 63
darwin_errno enetdown = 50
darwin_errno enetreset = 52
darwin_errno enetunreach = 51
darwin_errno enfile = 23
darwin_errno enobufs = 55
darwin_errno enodata = 96
darwin_errno enodev = 19
darwin_errno enoent = 2
darwin_errno enoexec = 8
darwin_errno enolck = 77
darwin_errno enolink = 97
darwin_errno enomem = 12
darwin_errno enomsg = 91
darwin_errno enoprotoopt = 42
darwin_errno enospc = 28
darwin_errno enosr = 98
darwin_errno enostr = 99
darwin_errno enosys = 78
darwin_errno enotblk = 15
darwin_errno enotconn = 57
darwin_errno enotdir = 20
darwin_errno enotempty = 66
darwin_errno enotrecoverable = 104
darwin_errno enotsock = 38
darwin_errno enotsup = 45
darwin_errno enotty = 25
darwin_errno enxio = 6
darwin_errno eopnotsupp = 102
darwin_errno eoverflow = 84
darwin_errno eownerdead = 105
darwin_errno eperm = 1
darwin_errno epfnosupport = 46
darwin_errno epipe = 32
darwin_errno eproto = 100
darwin_errno eprotonosupport = 43
darwin_errno eprototype = 41
darwin_errno erange = 34
darwin_errno eremote = 71
darwin_errno erofs = 30
darwin_errno eshutdown = 58
darwin_errno esocktnosupport = 44
darwin_errno espipe = 29
darwin_errno esrch = 3
darwin_errno estale = 70
darwin_errno etime = 101
darwin_errno etimedout = 60
darwin_errno etoomanyrefs = 59
darwin_errno etxtbsy = 26
darwin_errno eusers = 68
darwin_errno ewouldblock = 35
darwin_errno exdev = 18

-- The value of `syscall.E…` in a program built for the system.
abbrev pub errno : Os → ErrorName → ℕ
errno linux = linux_errno
errno darwin = darwin_errno
