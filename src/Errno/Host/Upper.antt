-- ===== src/Errno/Host/Upper.antt =====
-- The host's error numbers: Linux's asm-generic/errno.h, from which the C library takes them: those from 80 on.
use sparcy.Base.{ℕ}

abbrev pub elibbad : ℕ
elibbad = 80

abbrev pub elibscn : ℕ
elibscn = 81

abbrev pub elibmax : ℕ
elibmax = 82

abbrev pub elibexec : ℕ
elibexec = 83

abbrev pub eilseq : ℕ
eilseq = 84

abbrev pub erestart : ℕ
erestart = 85

abbrev pub estrpipe : ℕ
estrpipe = 86

abbrev pub eusers : ℕ
eusers = 87

abbrev pub enotsock : ℕ
enotsock = 88

abbrev pub edestaddrreq : ℕ
edestaddrreq = 89

abbrev pub emsgsize : ℕ
emsgsize = 90

abbrev pub eprototype : ℕ
eprototype = 91

abbrev pub enoprotoopt : ℕ
enoprotoopt = 92

abbrev pub eprotonosupport : ℕ
eprotonosupport = 93

abbrev pub esocktnosupport : ℕ
esocktnosupport = 94

abbrev pub eopnotsupp : ℕ
eopnotsupp = 95

abbrev pub epfnosupport : ℕ
epfnosupport = 96

abbrev pub eafnosupport : ℕ
eafnosupport = 97

abbrev pub eaddrinuse : ℕ
eaddrinuse = 98

abbrev pub eaddrnotavail : ℕ
eaddrnotavail = 99

abbrev pub enetdown : ℕ
enetdown = 100

abbrev pub enetunreach : ℕ
enetunreach = 101

abbrev pub enetreset : ℕ
enetreset = 102

abbrev pub econnaborted : ℕ
econnaborted = 103

abbrev pub econnreset : ℕ
econnreset = 104

abbrev pub enobufs : ℕ
enobufs = 105

abbrev pub eisconn : ℕ
eisconn = 106

abbrev pub enotconn : ℕ
enotconn = 107

abbrev pub eshutdown : ℕ
eshutdown = 108

abbrev pub etoomanyrefs : ℕ
etoomanyrefs = 109

abbrev pub etimedout : ℕ
etimedout = 110

abbrev pub econnrefused : ℕ
econnrefused = 111

abbrev pub ehostdown : ℕ
ehostdown = 112

abbrev pub ehostunreach : ℕ
ehostunreach = 113

abbrev pub ealready : ℕ
ealready = 114

abbrev pub einprogress : ℕ
einprogress = 115

abbrev pub estale : ℕ
estale = 116

abbrev pub euclean : ℕ
euclean = 117

abbrev pub enotnam : ℕ
enotnam = 118

abbrev pub enavail : ℕ
enavail = 119

abbrev pub eisnam : ℕ
eisnam = 120

abbrev pub eremoteio : ℕ
eremoteio = 121

abbrev pub enomedium : ℕ
enomedium = 123

abbrev pub emediumtype : ℕ
emediumtype = 124

abbrev pub ecanceled : ℕ
ecanceled = 125

abbrev pub enokey : ℕ
enokey = 126

abbrev pub ekeyexpired : ℕ
ekeyexpired = 127

abbrev pub ekeyrevoked : ℕ
ekeyrevoked = 128

abbrev pub ekeyrejected : ℕ
ekeyrejected = 129

abbrev pub eownerdead : ℕ
eownerdead = 130

abbrev pub enotrecoverable : ℕ
enotrecoverable = 131
