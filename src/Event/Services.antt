-- ===== src/Event/Services.antt =====
-- The logsource tables of sigmacatch/src/types.rs, as association lists with distinct keys.
use sigmacatch.Prelude.{List, Option, String, [], if◌then◌else◌, none, some, str_eq, ◌∷◌}

abbrev pub Table : Type 0 → Type 0
Table V = List (String × V)

-- `phf::Map::get`
unfoldable pub lookup {ℓ} : {V : Type ℓ} → String → List (String × V) → Option V
lookup k [] = none
lookup k ((j, v) ∷ t) = if str_eq j k then some v else lookup k t

-- Channel to Sigma service.
unfoldable pub channel_to_service : List (String × String)
channel_to_service =
    ("Application", "application")
    ∷ ("System", "system")
    ∷ ("Security", "security")
    ∷ ("Microsoft-Windows-Sysmon/Operational", "sysmon")
    ∷ ("Linux-Sysmon/Operational", "sysmon")
    ∷ ("DNS Server", "dns-server")
    ∷ ("Microsoft-Windows-DNS-Server/Analytical", "dns-server-analytic")
    ∷ ("Microsoft-Windows-DNS-Server/Audit", "dns-server-audit")
    ∷ ("Microsoft-Windows-DNS Client Events/Operational", "dns-client")
    ∷ ("Microsoft-Windows-DHCP-Server/Operational", "dhcp")
    ∷ ("Microsoft-Windows-DriverFrameworks-UserMode/Operational", "driver-framework")
    ∷ ("Microsoft-Windows-Hyper-V-Worker", "hyper-v-worker")
    ∷ ("Microsoft-IIS-Configuration/Operational", "iis-configuration")
    ∷ ("Microsoft-Windows-Kernel-EventTracing", "kernel-event-tracing")
    ∷ ("Microsoft-Windows-Kernel-ShimEngine/Operational", "kernel-shimengine")
    ∷ ("Microsoft-Windows-Kernel-ShimEngine/Diagnostic", "kernel-shimengine")
    ∷ ("Microsoft-Windows-LDAP-Client/Debug", "ldap")
    ∷ ("Microsoft-Windows-LSA/Operational", "lsa-server")
    ∷ ("Microsoft-Windows-NTLM/Operational", "ntlm")
    ∷ ("Microsoft-Windows-Ntfs/Operational", "ntfs")
    ∷ ("OpenSSH/Operational", "openssh")
    ∷ ("Microsoft-Windows-PrintService/Admin", "printservice-admin")
    ∷ ("Microsoft-Windows-PrintService/Operational", "printservice-operational")
    ∷ ("Microsoft-Windows-AppLocker/EXE and DLL", "applocker")
    ∷ ("Microsoft-Windows-AppLocker/MSI and Script", "applocker")
    ∷ ("Microsoft-Windows-AppLocker/Packaged app-Deployment", "applocker")
    ∷ ("Microsoft-Windows-AppLocker/Packaged app-Execution", "applocker")
    ∷ ("Microsoft-Windows-AppModel-Runtime/Admin", "appmodel-runtime")
    ∷ ("Microsoft-Windows-AppXDeploymentServer/Operational", "appxdeployment-server")
    ∷ ("Microsoft-Windows-AppxPackaging/Operational", "appxpackaging-om")
    ∷ ("Microsoft-Windows-Application-Experience/Program-Telemetry", "application-experience")
    ∷ (
      "Microsoft-Windows-Application-Experience/Program-Compatibility-Assistant",
      "application-experience",
    )
    ∷ ("Microsoft-Windows-BitLocker/BitLocker Management", "bitlocker")
    ∷ ("Microsoft-Windows-Bits-Client/Operational", "bits-client")
    ∷ ("Microsoft-Windows-CAPI2/Operational", "capi2")
    ∷ (
      "Microsoft-Windows-CertificateServicesClient-Lifecycle-System/Operational",
      "certificateservicesclient-lifecycle-system",
    )
    ∷ ("Microsoft-Windows-CodeIntegrity/Operational", "codeintegrity-operational")
    ∷ ("Microsoft-Windows-SENSE/Operational", "sense")
    ∷ ("Microsoft-ServiceBus-Client/Operational", "servicebus-client")
    ∷ ("Microsoft-ServiceBus-Client/Admin", "servicebus-client")
    ∷ ("Microsoft-Windows-Shell-Core/Operational", "shell-core")
    ∷ ("Microsoft-Windows-Security-Mitigations/Kernel Mode", "security-mitigations")
    ∷ ("Microsoft-Windows-Security-Mitigations/User Mode", "security-mitigations")
    ∷ (
      "Microsoft-Windows-TerminalServices-LocalSessionManager/Operational",
      "terminalservices-localsessionmanager",
    )
    ∷ ("Microsoft-Windows-VHDMP/Operational", "vhdmp")
    ∷ ("Microsoft-Windows-Windows Defender/Operational", "windefend")
    ∷ ("Microsoft-Windows-Windows Firewall With Advanced Security/Firewall", "firewall-as")
    ∷ ("Microsoft-Windows-Diagnosis-Scripted/Operational", "diagnosis-scripted")
    ∷ ("MSExchange Management", "msexchange-management")
    ∷ ("Microsoft-Windows-SmbClient/Security", "smbclient-security")
    ∷ ("Windows PowerShell", "powershell-classic")
    ∷ ("Microsoft-Windows-PowerShell/Operational", "powershell")
    ∷ ("PowerShellCore/Operational", "powershell")
    ∷ ("Microsoft-Windows-TaskScheduler/Operational", "taskscheduler")
    ∷ ("Microsoft-Windows-WMI-Activity/Operational", "wmi")
    ∷ []

-- Service to Windows event channels.
unfoldable pub service_channels : List (String × List String)
service_channels =
    ("application", "Application" ∷ [])
    ∷ (
      "application-experience",
      "Microsoft-Windows-Application-Experience/Program-Telemetry"
          ∷ "Microsoft-Windows-Application-Experience/Program-Compatibility-Assistant" ∷ [],
    )
    ∷ (
      "applocker",
      "Microsoft-Windows-AppLocker/EXE and DLL" ∷ "Microsoft-Windows-AppLocker/MSI and Script"
          ∷ "Microsoft-Windows-AppLocker/Packaged app-Deployment"
          ∷ "Microsoft-Windows-AppLocker/Packaged app-Execution" ∷ [],
    )
    ∷ ("appmodel-runtime", "Microsoft-Windows-AppModel-Runtime/Admin" ∷ [])
    ∷ ("appxdeployment-server", "Microsoft-Windows-AppXDeploymentServer/Operational" ∷ [])
    ∷ ("appxpackaging-om", "Microsoft-Windows-AppxPackaging/Operational" ∷ [])
    ∷ ("bitlocker", "Microsoft-Windows-BitLocker/BitLocker Management" ∷ [])
    ∷ ("bits-client", "Microsoft-Windows-Bits-Client/Operational" ∷ [])
    ∷ ("capi2", "Microsoft-Windows-CAPI2/Operational" ∷ [])
    ∷ (
      "certificateservicesclient-lifecycle-system",
      "Microsoft-Windows-CertificateServicesClient-Lifecycle-System/Operational" ∷ [],
    )
    ∷ ("codeintegrity-operational", "Microsoft-Windows-CodeIntegrity/Operational" ∷ [])
    ∷ ("dhcp", "Microsoft-Windows-DHCP-Server/Operational" ∷ [])
    ∷ ("diagnosis-scripted", "Microsoft-Windows-Diagnosis-Scripted/Operational" ∷ [])
    ∷ ("dns-client", "Microsoft-Windows-DNS Client Events/Operational" ∷ [])
    ∷ ("dns-server", "DNS Server" ∷ [])
    ∷ ("dns-server-analytic", "Microsoft-Windows-DNS-Server/Analytical" ∷ [])
    ∷ ("dns-server-audit", "Microsoft-Windows-DNS-Server/Audit" ∷ [])
    ∷ ("driver-framework", "Microsoft-Windows-DriverFrameworks-UserMode/Operational" ∷ [])
    ∷ ("firewall-as", "Microsoft-Windows-Windows Firewall With Advanced Security/Firewall" ∷ [])
    ∷ ("hyper-v-worker", "Microsoft-Windows-Hyper-V-Worker" ∷ [])
    ∷ ("iis-configuration", "Microsoft-IIS-Configuration/Operational" ∷ [])
    ∷ ("kernel-event-tracing", "Microsoft-Windows-Kernel-EventTracing" ∷ [])
    ∷ (
      "kernel-shimengine",
      "Microsoft-Windows-Kernel-ShimEngine/Operational"
          ∷ "Microsoft-Windows-Kernel-ShimEngine/Diagnostic" ∷ [],
    )
    ∷ ("ldap", "Microsoft-Windows-LDAP-Client/Debug" ∷ [])
    ∷ ("lsa-server", "Microsoft-Windows-LSA/Operational" ∷ [])
    ∷ ("msexchange-management", "MSExchange Management" ∷ [])
    ∷ ("ntfs", "Microsoft-Windows-Ntfs/Operational" ∷ [])
    ∷ ("ntlm", "Microsoft-Windows-NTLM/Operational" ∷ [])
    ∷ ("openssh", "OpenSSH/Operational" ∷ [])
    ∷ ("powershell", "Microsoft-Windows-PowerShell/Operational" ∷ "PowerShellCore/Operational" ∷ [])
    ∷ ("powershell-classic", "Windows PowerShell" ∷ [])
    ∷ ("printservice-admin", "Microsoft-Windows-PrintService/Admin" ∷ [])
    ∷ ("printservice-operational", "Microsoft-Windows-PrintService/Operational" ∷ [])
    ∷ ("security", "Security" ∷ [])
    ∷ (
      "security-mitigations",
      "Microsoft-Windows-Security-Mitigations/Kernel Mode"
          ∷ "Microsoft-Windows-Security-Mitigations/User Mode" ∷ [],
    )
    ∷ ("sense", "Microsoft-Windows-SENSE/Operational" ∷ [])
    ∷ (
      "servicebus-client",
      "Microsoft-ServiceBus-Client/Operational" ∷ "Microsoft-ServiceBus-Client/Admin" ∷ [],
    )
    ∷ ("shell-core", "Microsoft-Windows-Shell-Core/Operational" ∷ [])
    ∷ ("smbclient-security", "Microsoft-Windows-SmbClient/Security" ∷ [])
    ∷ ("sysmon", "Microsoft-Windows-Sysmon/Operational" ∷ [])
    ∷ ("system", "System" ∷ [])
    ∷ ("taskscheduler", "Microsoft-Windows-TaskScheduler/Operational" ∷ [])
    ∷ (
      "terminalservices-localsessionmanager",
      "Microsoft-Windows-TerminalServices-LocalSessionManager/Operational" ∷ [],
    )
    ∷ ("vhdmp", "Microsoft-Windows-VHDMP/Operational" ∷ [])
    ∷ ("windefend", "Microsoft-Windows-Windows Defender/Operational" ∷ [])
    ∷ ("wmi", "Microsoft-Windows-WMI-Activity/Operational" ∷ [])
    ∷ []
