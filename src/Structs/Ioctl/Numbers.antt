-- ===== src/Structs/Ioctl/Numbers.antt =====
-- Ioctl requests that proj/sparc-linux/syscall_defs.h gives by their numbers.
use Prim.Native.String.{String}
use sparcy.Base.{ℕ, List, [], ◌∷◌}

abbrev pub console_requests : List (String × ℕ)
console_requests =
    ("KIOCSOUND", 0x4B2F)
    ∷ ("KDMKTONE", 0x4B30)
    ∷ ("KDGKBTYPE", 0x4b33)
    ∷ ("KDSETMODE", 0x4b3a)
    ∷ ("KDGKBMODE", 0x4b44)
    ∷ ("KDSKBMODE", 0x4b45)
    ∷ ("KDGKBENT", 0x4B46)
    ∷ ("KDGKBSENT", 0x4B48)
    ∷ ("KDGKBLED", 0x4B64)
    ∷ ("KDSKBLED", 0x4B65)
    ∷ ("KDGETLED", 0x4B31)
    ∷ ("KDSETLED", 0x4B32)
    ∷ ("KDSIGACCEPT", 0x4B4E)
    ∷ []

abbrev pub network_requests : List (String × ℕ)
network_requests =
    ("SIOCATMARK", 0x8905)
    ∷ ("SIOCADDRT", 0x890B)
    ∷ ("SIOCDELRT", 0x890C)
    ∷ ("SIOCGIFNAME", 0x8910)
    ∷ ("SIOCSIFLINK", 0x8911)
    ∷ ("SIOCGIFCONF", 0x8912)
    ∷ ("SIOCGIFFLAGS", 0x8913)
    ∷ ("SIOCSIFFLAGS", 0x8914)
    ∷ ("SIOCGIFADDR", 0x8915)
    ∷ ("SIOCSIFADDR", 0x8916)
    ∷ ("SIOCGIFDSTADDR", 0x8917)
    ∷ ("SIOCSIFDSTADDR", 0x8918)
    ∷ ("SIOCGIFBRDADDR", 0x8919)
    ∷ ("SIOCSIFBRDADDR", 0x891a)
    ∷ ("SIOCGIFNETMASK", 0x891b)
    ∷ ("SIOCSIFNETMASK", 0x891c)
    ∷ ("SIOCGIFMETRIC", 0x891d)
    ∷ ("SIOCSIFMETRIC", 0x891e)
    ∷ ("SIOCGIFMEM", 0x891f)
    ∷ ("SIOCSIFMEM", 0x8920)
    ∷ ("SIOCGIFMTU", 0x8921)
    ∷ ("SIOCSIFMTU", 0x8922)
    ∷ ("SIOCSIFHWADDR", 0x8924)
    ∷ ("SIOCGIFENCAP", 0x8925)
    ∷ ("SIOCSIFENCAP", 0x8926)
    ∷ ("SIOCGIFHWADDR", 0x8927)
    ∷ ("SIOCGIFSLAVE", 0x8929)
    ∷ ("SIOCSIFSLAVE", 0x8930)
    ∷ ("SIOCADDMULTI", 0x8931)
    ∷ ("SIOCDELMULTI", 0x8932)
    ∷ ("SIOCGIFINDEX", 0x8933)
    ∷ ("SIOCGIFBR", 0x8940)
    ∷ ("SIOCSIFBR", 0x8941)
    ∷ ("SIOCGIFTXQLEN", 0x8942)
    ∷ ("SIOCSIFTXQLEN", 0x8943)
    ∷ ("OLD_SIOCDARP", 0x8950)
    ∷ ("OLD_SIOCGARP", 0x8951)
    ∷ ("OLD_SIOCSARP", 0x8952)
    ∷ ("SIOCDARP", 0x8953)
    ∷ ("SIOCGARP", 0x8954)
    ∷ ("SIOCSARP", 0x8955)
    ∷ ("SIOCDRARP", 0x8960)
    ∷ ("SIOCGRARP", 0x8961)
    ∷ ("SIOCSRARP", 0x8962)
    ∷ ("SIOCGIFMAP", 0x8970)
    ∷ ("SIOCSIFMAP", 0x8971)
    ∷ ("SIOCADDDLCI", 0x8980)
    ∷ ("SIOCDELDLCI", 0x8981)
    ∷ ("SIOCGIWNAME", 0x8B01)
    ∷ []

abbrev pub cdrom_requests : List (String × ℕ)
cdrom_requests =
    ("CDROMPAUSE", 0x5301)
    ∷ ("CDROMRESUME", 0x5302)
    ∷ ("CDROMPLAYMSF", 0x5303)
    ∷ ("CDROMPLAYTRKIND", 0x5304)
    ∷ ("CDROMREADTOCHDR", 0x5305)
    ∷ ("CDROMREADTOCENTRY", 0x5306)
    ∷ ("CDROMSTOP", 0x5307)
    ∷ ("CDROMSTART", 0x5308)
    ∷ ("CDROMEJECT", 0x5309)
    ∷ ("CDROMVOLCTRL", 0x530a)
    ∷ ("CDROMSUBCHNL", 0x530b)
    ∷ ("CDROMREADMODE2", 0x530c)
    ∷ ("CDROMREADMODE1", 0x530d)
    ∷ ("CDROMREADAUDIO", 0x530e)
    ∷ ("CDROMEJECT_SW", 0x530f)
    ∷ ("CDROMMULTISESSION", 0x5310)
    ∷ ("CDROM_GET_MCN", 0x5311)
    ∷ ("CDROM_GET_UPC", 0x5311)
    ∷ ("CDROMRESET", 0x5312)
    ∷ ("CDROMVOLREAD", 0x5313)
    ∷ ("CDROMREADRAW", 0x5314)
    ∷ ("CDROMREADCOOKED", 0x5315)
    ∷ ("CDROMSEEK", 0x5316)
    ∷ ("CDROMPLAYBLK", 0x5317)
    ∷ ("CDROMREADALL", 0x5318)
    ∷ ("CDROMGETSPINDOWN", 0x531d)
    ∷ ("CDROMSETSPINDOWN", 0x531e)
    ∷ ("CDROMCLOSETRAY", 0x5319)
    ∷ ("CDROM_SET_OPTIONS", 0x5320)
    ∷ ("CDROM_CLEAR_OPTIONS", 0x5321)
    ∷ ("CDROM_SELECT_SPEED", 0x5322)
    ∷ ("CDROM_SELECT_DISC", 0x5323)
    ∷ ("CDROM_MEDIA_CHANGED", 0x5325)
    ∷ ("CDROM_DRIVE_STATUS", 0x5326)
    ∷ ("CDROM_DISC_STATUS", 0x5327)
    ∷ ("CDROM_CHANGER_NSLOTS", 0x5328)
    ∷ ("CDROM_LOCKDOOR", 0x5329)
    ∷ ("CDROM_DEBUG", 0x5330)
    ∷ ("CDROM_GET_CAPABILITY", 0x5331)
    ∷ ("CDROMAUDIOBUFSIZ", 0x5382)
    ∷ ("DVD_READ_STRUCT", 0x5390)
    ∷ ("DVD_WRITE_STRUCT", 0x5391)
    ∷ ("DVD_AUTH", 0x5392)
    ∷ ("CDROM_SEND_PACKET", 0x5393)
    ∷ ("CDROM_NEXT_WRITABLE", 0x5394)
    ∷ ("CDROM_LAST_WRITTEN", 0x5395)
    ∷ []

abbrev pub disk_requests : List (String × ℕ)
disk_requests =
    ("HDIO_GETGEO", 0x0301)
    ∷ ("HDIO_GET_UNMASKINTR", 0x0302)
    ∷ ("HDIO_GET_MULTCOUNT", 0x0304)
    ∷ ("HDIO_GET_KEEPSETTINGS", 0x0308)
    ∷ ("HDIO_GET_32BIT", 0x0309)
    ∷ ("HDIO_GET_NOWERR", 0x030a)
    ∷ ("HDIO_GET_DMA", 0x030b)
    ∷ ("HDIO_GET_IDENTITY", 0x030d)
    ∷ ("HDIO_DRIVE_CMD", 0x031f)
    ∷ ("HDIO_SET_MULTCOUNT", 0x0321)
    ∷ ("HDIO_SET_UNMASKINTR", 0x0322)
    ∷ ("HDIO_SET_KEEPSETTINGS", 0x0323)
    ∷ ("HDIO_SET_32BIT", 0x0324)
    ∷ ("HDIO_SET_NOWERR", 0x0325)
    ∷ ("HDIO_SET_DMA", 0x0326)
    ∷ ("HDIO_SET_PIO_MODE", 0x0327)
    ∷ []

abbrev pub loop_requests : List (String × ℕ)
loop_requests =
    ("LOOP_SET_FD", 0x4C00)
    ∷ ("LOOP_CLR_FD", 0x4C01)
    ∷ ("LOOP_SET_STATUS", 0x4C02)
    ∷ ("LOOP_GET_STATUS", 0x4C03)
    ∷ ("LOOP_SET_STATUS64", 0x4C04)
    ∷ ("LOOP_GET_STATUS64", 0x4C05)
    ∷ ("LOOP_CHANGE_FD", 0x4C06)
    ∷ []

abbrev pub screen_requests : List (String × ℕ)
screen_requests =
    ("FBIOGET_VSCREENINFO", 0x4600)
    ∷ ("FBIOPUT_VSCREENINFO", 0x4601)
    ∷ ("FBIOGET_FSCREENINFO", 0x4602)
    ∷ ("FBIOGETCMAP", 0x4604)
    ∷ ("FBIOPUTCMAP", 0x4605)
    ∷ ("FBIOPAN_DISPLAY", 0x4606)
    ∷ ("FBIOGET_CON2FBMAP", 0x460F)
    ∷ ("FBIOPUT_CON2FBMAP", 0x4610)
    ∷ ("VT_OPENQRY", 0x5600)
    ∷ ("VT_GETSTATE", 0x5603)
    ∷ ("VT_ACTIVATE", 0x5606)
    ∷ ("VT_WAITACTIVE", 0x5607)
    ∷ ("VT_LOCKSWITCH", 0x560b)
    ∷ ("VT_UNLOCKSWITCH", 0x560c)
    ∷ ("VT_GETMODE", 0x5601)
    ∷ ("VT_SETMODE", 0x5602)
    ∷ ("VT_RELDISP", 0x5605)
    ∷ ("VT_DISALLOCATE", 0x5608)
    ∷ []
