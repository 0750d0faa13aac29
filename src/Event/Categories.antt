-- ===== src/Event/Categories.antt =====
-- The tables of sigmacatch/src/types.rs on categories and providers.
use sigmacatch.Prelude.{
  List, Option, String, [], if◌then◌else◌, none, some, str_eq, ℕ, ◌&&◌, ◌==◌, ◌∷◌,
}

-- Category to Windows event channels.
unfoldable pub category_channels : List (String × List String)
category_channels =
    ("ps_classic_provider_start", "Windows PowerShell" ∷ [])
    ∷ ("ps_classic_script", "Windows PowerShell" ∷ [])
    ∷ ("ps_classic_start", "Windows PowerShell" ∷ [])
    ∷ ("ps_module", "Microsoft-Windows-PowerShell/Operational" ∷ "PowerShellCore/Operational" ∷ [])
    ∷ ("ps_script", "Microsoft-Windows-PowerShell/Operational" ∷ "PowerShellCore/Operational" ∷ [])
    ∷ []

-- Provider to channel.
unfoldable pub provider_to_channel : List (String × String)
provider_to_channel =
    ("Microsoft-Windows-Security-Auditing", "Security")
    ∷ ("Microsoft-Windows-Windows Defender", "Microsoft-Windows-Windows Defender/Operational")
    ∷ (
      "Microsoft-Windows-Windows Firewall With Advanced Security",
      "Microsoft-Windows-Windows Firewall With Advanced Security/Firewall",
    )
    ∷ ("NTLM Security Protocol", "Microsoft-Windows-NTLM/Operational")
    ∷ ("Microsoft-Windows-SMBClient", "Microsoft-Windows-SmbClient/Security")
    ∷ ("Local Security Authority (LSA)", "Microsoft-Windows-LSA/Operational")
    ∷ ("Microsoft-Windows-Bits-Client", "Microsoft-Windows-Bits-Client/Operational")
    ∷ ("Microsoft-Windows-CAPI2", "Microsoft-Windows-CAPI2/Operational")
    ∷ ("Microsoft-Windows-CodeIntegrity", "Microsoft-Windows-CodeIntegrity/Operational")
    ∷ ("Microsoft-Windows-DNS-Client", "Microsoft-Windows-DNS Client Events/Operational")
    ∷ ("Microsoft-Windows-PowerShell", "Microsoft-Windows-PowerShell/Operational")
    ∷ ("Microsoft-Windows-WMI-Activity", "Microsoft-Windows-WMI-Activity/Operational")
    ∷ ("Service Control Manager", "System")
    ∷ ("Microsoft-Windows-TaskScheduler", "Microsoft-Windows-TaskScheduler/Operational")
    ∷ ("OpenSSH", "OpenSSH/Operational")
    ∷ ("Microsoft-Windows-SENSE", "Microsoft-Windows-SENSE/Operational")
    ∷ ("Microsoft-Windows-Shell-Core", "Microsoft-Windows-Shell-Core/Operational")
    ∷ (
      "Microsoft-Windows-TerminalServices-LocalSessionManager",
      "Microsoft-Windows-TerminalServices-LocalSessionManager/Operational",
    )
    ∷ (
      "Microsoft-Windows-DriverFrameworks-UserMode",
      "Microsoft-Windows-DriverFrameworks-UserMode/Operational",
    )
    ∷ ("Microsoft-Windows-Hyper-V-Worker", "Microsoft-Windows-Hyper-V-Worker")
    ∷ ("Microsoft-Windows-Ntfs", "Microsoft-Windows-Ntfs/Operational")
    ∷ ("Microsoft-Windows-LDAP-Client", "Microsoft-Windows-LDAP-Client/Debug")
    ∷ ("Microsoft-Windows-Diagnosis-Scripted", "Microsoft-Windows-Diagnosis-Scripted/Operational")
    ∷ ("Microsoft-Windows-PrintService", "Microsoft-Windows-PrintService/Operational")
    ∷ ("Microsoft-Windows-DHCP-Server", "Microsoft-Windows-DHCP-Server/Operational")
    ∷ ("Microsoft-Windows-Kernel-EventTracing", "Microsoft-Windows-Kernel-EventTracing")
    ∷ ("Microsoft-Windows-Kernel-ShimEngine", "Microsoft-Windows-Kernel-ShimEngine/Operational")
    ∷ ("Microsoft-Windows-AppModel-Runtime", "Microsoft-Windows-AppModel-Runtime/Admin")
    ∷ (
      "Microsoft-Windows-AppXDeploymentServer",
      "Microsoft-Windows-AppXDeploymentServer/Operational",
    )
    ∷ ("Microsoft-Windows-AppxPackagingOM", "Microsoft-Windows-AppxPackaging/Operational")
    ∷ (
      "Microsoft-Windows-Application-Experience",
      "Microsoft-Windows-Application-Experience/Program-Telemetry",
    )
    ∷ ("Microsoft-Windows-BitLocker", "Microsoft-Windows-BitLocker/BitLocker Management")
    ∷ (
      "Microsoft-Windows-CertificateServicesClient-Lifecycle-System",
      "Microsoft-Windows-CertificateServicesClient-Lifecycle-System/Operational",
    )
    ∷ ("Microsoft-Windows-IIS-Configuration", "Microsoft-IIS-Configuration/Operational")
    ∷ ("Microsoft-ServiceBus-Client", "Microsoft-ServiceBus-Client/Operational")
    ∷ ("Microsoft-Windows-VHDMP", "Microsoft-Windows-VHDMP/Operational")
    ∷ ("Microsoft-Windows-Security-Mitigations", "Microsoft-Windows-Security-Mitigations/User Mode")
    ∷ ("Microsoft-Windows-DNS-Server", "DNS Server")
    ∷ ("Microsoft-Windows-DNS-Server-Analytical", "Microsoft-Windows-DNS-Server/Analytical")
    ∷ ("Microsoft-Windows-DNS-Server-Audit", "Microsoft-Windows-DNS-Server/Audit")
    ∷ ("Microsoft-Windows-AppLocker", "Microsoft-Windows-AppLocker/EXE and DLL")
    ∷ ("MSExchange Management", "MSExchange Management")
    ∷ ("Windows PowerShell", "Windows PowerShell")
    ∷ ("Microsoft-Windows-Sysmon", "Microsoft-Windows-Sysmon/Operational")
    ∷ []

-- The keys "<channel>:<event id>" are kept as pairs: no decimal number holds a colon.
unfoldable pub lookup_event : String → ℕ → List (String × ℕ × String) → Option String
lookup_event channel id [] = none
lookup_event channel id ((c, i, v) ∷ t) =
    if str_eq c channel && (i == id) then some v else lookup_event channel id t

-- Channel and event id to Sigma category.
unfoldable pub channel_event_to_category : List (String × ℕ × String)
channel_event_to_category =
    ("Microsoft-Windows-Sysmon/Operational", 1, "process_creation")
    ∷ ("Microsoft-Windows-Sysmon/Operational", 2, "file_change")
    ∷ ("Microsoft-Windows-Sysmon/Operational", 3, "network_connection")
    ∷ ("Microsoft-Windows-Sysmon/Operational", 4, "sysmon_status")
    ∷ ("Microsoft-Windows-Sysmon/Operational", 5, "process_termination")
    ∷ ("Microsoft-Windows-Sysmon/Operational", 6, "driver_load")
    ∷ ("Microsoft-Windows-Sysmon/Operational", 7, "image_load")
    ∷ ("Microsoft-Windows-Sysmon/Operational", 8, "create_remote_thread")
    ∷ ("Microsoft-Windows-Sysmon/Operational", 9, "raw_access_thread")
    ∷ ("Microsoft-Windows-Sysmon/Operational", 10, "process_access")
    ∷ ("Microsoft-Windows-Sysmon/Operational", 11, "file_event")
    ∷ ("Microsoft-Windows-Sysmon/Operational", 12, "registry_event")
    ∷ ("Microsoft-Windows-Sysmon/Operational", 13, "registry_event")
    ∷ ("Microsoft-Windows-Sysmon/Operational", 14, "registry_event")
    ∷ ("Microsoft-Windows-Sysmon/Operational", 15, "create_stream_hash")
    ∷ ("Microsoft-Windows-Sysmon/Operational", 16, "sysmon_status")
    ∷ ("Microsoft-Windows-Sysmon/Operational", 17, "pipe_created")
    ∷ ("Microsoft-Windows-Sysmon/Operational", 18, "pipe_created")
    ∷ ("Microsoft-Windows-Sysmon/Operational", 19, "wmi_event")
    ∷ ("Microsoft-Windows-Sysmon/Operational", 20, "wmi_event")
    ∷ ("Microsoft-Windows-Sysmon/Operational", 21, "wmi_event")
    ∷ ("Microsoft-Windows-Sysmon/Operational", 22, "dns_query")
    ∷ ("Microsoft-Windows-Sysmon/Operational", 23, "file_delete")
    ∷ ("Microsoft-Windows-Sysmon/Operational", 24, "clipboard_capture")
    ∷ ("Microsoft-Windows-Sysmon/Operational", 25, "process_tampering")
    ∷ ("Microsoft-Windows-Sysmon/Operational", 26, "file_delete_detected")
    ∷ ("Microsoft-Windows-Sysmon/Operational", 27, "file_block_executable")
    ∷ ("Microsoft-Windows-Sysmon/Operational", 28, "file_block_shredding")
    ∷ ("Microsoft-Windows-Sysmon/Operational", 29, "file_executable_detected")
    ∷ ("Microsoft-Windows-Sysmon/Operational", 255, "sysmon_error")
    ∷ ("Security", 4688, "process_creation")
    ∷ ("Windows PowerShell", 400, "ps_classic_start")
    ∷ ("Windows PowerShell", 600, "ps_classic_provider_start")
    ∷ ("Windows PowerShell", 800, "ps_classic_script")
    ∷ ("Microsoft-Windows-PowerShell/Operational", 4103, "ps_module")
    ∷ ("Microsoft-Windows-PowerShell/Operational", 4104, "ps_script")
    ∷ ("PowerShellCore/Operational", 4103, "ps_module")
    ∷ ("PowerShellCore/Operational", 4104, "ps_script")
    ∷ ("Microsoft-Windows-WMI-Activity/Operational", 5857, "wmi_event")
    ∷ ("Microsoft-Windows-WMI-Activity/Operational", 5858, "wmi_event")
    ∷ ("Microsoft-Windows-WMI-Activity/Operational", 5859, "wmi_event")
    ∷ ("Microsoft-Windows-WMI-Activity/Operational", 5860, "wmi_event")
    ∷ ("Microsoft-Windows-WMI-Activity/Operational", 5861, "wmi_event")
    ∷ []

-- Overrides of the table above.
unfoldable pub channel_event_to_subcategory : List (String × ℕ × String)
channel_event_to_subcategory =
    ("Microsoft-Windows-Sysmon/Operational", 12, "registry_add")
    ∷ ("Microsoft-Windows-Sysmon/Operational", 13, "registry_set")
    ∷ ("Microsoft-Windows-Sysmon/Operational", 14, "registry_rename")
    ∷ []
